-- ===== src/Spock/Tests.antt =====
-- The names of internal/spock/names.go and the resources of `ComputeDesired` for three nodes.
use pgedge_helm.Base.{
  ℕ, zero, suc, Bool, ◌≡◌, ◌⊎◌, refl, true, false, [], ◌∷◌, ◌++◌, some, none, All,
}
use pgedge_helm.Base.Text.{Text, bytes, text_key, text_eq}
use pgedge_helm.Config.{Node, Config}
use pgedge_helm.Resource.{Identifier, identifier_key, identifier_eq}
use pgedge_helm.Spock.Types.{resource_type_node}
use pgedge_helm.Spock.Names.{spock_sub_name, spock_slot_name}
use pgedge_helm.Spock.Names.Distinct.{
  spock_sub_name-injective, spock_slot_name-injective, plain-IsUnambiguous, spock_sub_name_collides,
}
use pgedge_helm.Base.Maps.{Map}
use pgedge_helm.Base.{arith}
use pgedge_helm.Base.Maps.{lookup}
use pgedge_helm.Spock.Types.{ident, resource_type_replication_slot}
use pgedge_helm.Spock.ReplicationSlot
use pgedge_helm.Spock.ReplicationSlot.{new_replication_slot}
use pgedge_helm.Spock.Refresh.{discover_orphans, expected_slots}
use pgedge_helm.Spock.Refresh.Orphans.{discover_orphans-lookup, discover_orphans-lookup_node}
use pgedge_helm.Resource.{context}
use pgedge_helm.Resource.Plan.{plan}
use pgedge_helm.Resource.Plan.Order.{IsInOrder}
use pgedge_helm.Spock.World.{failure, no_rows, to_error, progress_reached, wait_for_sync_event_call}
use pgedge_helm.Spock.Refresh.{refresh_actual}
use pgedge_helm.Spock.Reconcile.{spock_api}
use pgedge_helm.Spock.Reconcile.Ordered.{reconcile-IsInOrder}
use pgedge_helm.Spock.SlotAdvance.{
  ReplicationSlotAdvanceFromCts, new_replication_slot_advance_from_cts, slot_name,
}
use pgedge_helm.Spock.OriginAdvance.{ReplicationOriginAdvance, new_replication_origin_advance}
use pgedge_helm.Spock.Advance.{set_advanced_to, create_slot_advance, create_origin_advance}
use pgedge_helm.Spock.Advance.Lockstep.{InLockstep, advance-InLockstep, create_slot_advance_fails}
use pgedge_helm.Spock.PeerCatchup.{PeerCatchup, new_peer_catchup}
use pgedge_helm.Spock.Waiting.{poll_catchup, poll_sync_event, health, health_of}
use pgedge_helm.Spock.Waiting.Polls.{
  caught_up, poll_catchup-CatchesUp, poll_catchup_sound, synced, not_synced, worker_starts, down,
  replicating, poll_sync_event-Arrives, poll_sync_event_sound,
}
use pgedge_helm.Spock.Subscription.{new_subscription}
use pgedge_helm.Spock.WaitForSyncEvent.{WaitForSyncEvent, new_wait_for_sync_event}
use pgedge_helm.Spock.Object.{Body, Object, subscription, wait_for_sync_event, body_identifier}
use pgedge_helm.Spock.World.{Driver, World, answer, no_status}
use pgedge_helm.Spock.Methods.{refresh_body, refresh_subscription, refresh_ephemeral}
use pgedge_helm.Spock.Refresh.{check_slot_health, refresh_desired}
use pgedge_helm.Spock.Refresh.SlotHealth.{LacksSlot, AsksRecreation, check_slot_health_lem}
use pgedge_helm.Spock.Refresh.Persistent.{IsRefreshed, refresh_desired-IsRefreshed}
use pgedge_helm.Spock.Desired.{Conns, new_nodes, compute_desired}
use pgedge_helm.Spock.Desired.Acyclic.{HasRank, one_fills, compute_desired-HasRank}

abbrev plain_node : Text → Node
plain_node name = record {
  name = name;
  hostname = name;
  internal_hostname = name;
  bootstrap = record { mode = bytes ""; source_node = bytes "" };
}

abbrev third : Node
third = record {
  name = bytes "n3";
  hostname = bytes "n3";
  internal_hostname = bytes "n3";
  bootstrap = record { mode = bytes "spock"; source_node = bytes "n1" };
}

-- A third node that is added and filled from the first.
abbrev cfg : Config
cfg = record {
  app_name = bytes "pgedge";
  db_name = bytes "app";
  namespace = bytes "default";
  admin_user = bytes "admin";
  pgedge_user = bytes "pgedge";
  reset_spock = false;
  nodes = plain_node (bytes "n1") ∷ plain_node (bytes "n2") ∷ third ∷ [];
}

abbrev conns : Conns
conns = (bytes "n1", 1) ∷ (bytes "n2", 2) ∷ (bytes "n3", 3) ∷ []

compute_desired-HasRank_example : HasRank (compute_desired cfg conns 0).resources
unfolding text_eq new_nodes
compute_desired-HasRank_example =
    compute_desired-HasRank cfg conns 0
      (plain-IsUnambiguous (bytes "n1" ∷ bytes "n2" ∷ bytes "n3" ∷ [])
        ((refl, refl), ((refl, refl), ((refl, refl), tt))))
      (one_fills third refl refl refl refl)

spock_sub_name-injective_example : (bytes "n1" ≡ bytes "n1") × (bytes "n2" ≡ bytes "n2")
spock_sub_name-injective_example =
    spock_sub_name-injective (bytes "n1") (bytes "n2") (bytes "n1") (bytes "n2") (refl, refl)
      (refl, refl) (refl, refl) (refl, refl) refl

spock_slot_name-injective_example : (bytes "n1" ≡ bytes "n1") × (bytes "n2" ≡ bytes "n2")
spock_slot_name-injective_example =
    spock_slot_name-injective (bytes "my-db") (bytes "n1") (bytes "n2") (bytes "n1") (bytes "n2")
      (refl, refl) (refl, refl) (refl, refl) (refl, refl) refl

spock_sub_name_collides_example :
    spock_sub_name (bytes "a" ++ (bytes "-" ++ bytes "b")) (bytes "c")
    ≡ spock_sub_name (bytes "a") (bytes "b" ++ (bytes "-" ++ bytes "c"))
spock_sub_name_collides_example = spock_sub_name_collides (bytes "a") (bytes "b") (bytes "c")

-- Databases where every question is answered with yes, and no orphan is found.
abbrev agreeable : Driver (Unit {0})
agreeable = record {
  query_bool = λ c q d. (answer true, d);
  query_rows = λ c q d. (answer [], d);
  query_sets = λ c d. (answer (record { scanned = []; rows_err = none }), d);
  query_set_tables = λ c d. (answer (record { scanned = []; rows_err = none }), d);
  query_text = λ c q d. (answer (bytes "0/1"), d);
  query_time = λ c q d. (answer 7, d);
  exec = λ c s d. (answer tt, d);
  begin = λ c d. (answer 0, d);
  tx_exec = λ t s d. (answer tt, d);
  tx_bool = λ t q d. (answer true, d);
  tx_text = λ t q d. (answer (bytes "0/1"), d);
  commit = λ t d. (answer tt, d);
  rollback = λ t d. d;
  ctx_err = λ d. none;
  sleep = λ n d. d;
}

abbrev blank : World (Unit {0})
blank = record {
  next = 0;
  status = λ a. no_status;
  lsn = λ a. [];
  commit_ts = λ a. some 7;
  advanced_to = λ a. [];
  databases = tt;
}

-- A subscription without its slot, and a resource of a populate run.
abbrev sub_body : Body
sub_body = subscription (
    new_subscription (plain_node (bytes "n1")) (plain_node (bytes "n2")) (bytes "app")
      (bytes "pgedge") false (some 2) [])

abbrev wait_body : Body
wait_body = wait_for_sync_event (new_wait_for_sync_event (bytes "n1") (bytes "n3") 0 (some 3))

abbrev held : Map Identifier Object
held =
    (body_identifier sub_body, record { address = 1; body = sub_body })
    ∷ (body_identifier wait_body, record { address = 2; body = wait_body })
    ∷ []

check_slot_health_lem_example :
    ((LacksSlot held 1 × AsksRecreation ((check_slot_health agreeable held blank).status 1))
      ⊎ ((LacksSlot held 1 → ⊥) × ((check_slot_health agreeable held blank).status 1 ≡ no_status)))
    × ((check_slot_health agreeable held blank).databases ≡ blank.databases)
check_slot_health_lem_example = check_slot_health_lem agreeable held blank 1

refresh_desired-IsRefreshed_example :
    All
      (IsRefreshed agreeable
        (refresh_desired agreeable held [] blank).1
        (refresh_desired agreeable held [] blank).2)
      held
unfolding refresh_desired refresh_body refresh_subscription refresh_ephemeral identifier_eq text_eq
    body_identifier
refresh_desired-IsRefreshed_example =
    refresh_desired-IsRefreshed agreeable held blank (refl, (refl, tt)) ((refl, tt), (tt, tt)) refl

reconcile-IsInOrder_example : IsInOrder (spock_api agreeable 5) (
    plan
      (spock_api agreeable 5)
      blank
      (refresh_actual agreeable cfg conns (compute_desired cfg conns 0).resources blank).1
      (compute_desired cfg conns 0).resources)
unfolding text_eq new_nodes
reconcile-IsInOrder_example =
    reconcile-IsInOrder agreeable 5 cfg conns 0 blank blank
      (plain-IsUnambiguous (bytes "n1" ∷ bytes "n2" ∷ bytes "n3" ∷ [])
        ((refl, refl), ((refl, refl), ((refl, refl), tt))))
      (one_fills third refl refl refl refl)

-- Databases where a slot is idle and behind, and those where no query for a text succeeds.
abbrev idle : Driver (Unit {0})
idle = record agreeable { query_bool = λ c q d. (answer false, d) }

abbrev mute : Driver (Unit {0})
mute = record agreeable { query_text = λ c q d. (failure no_rows, d) }

abbrev running_worker : Driver (Unit {0})
running_worker = record agreeable { query_text = λ c q d. (answer (bytes "replicating"), d) }

abbrev slot_step : ReplicationSlotAdvanceFromCts
slot_step = new_replication_slot_advance_from_cts (bytes "n2") (bytes "n3") (bytes "app") 5 (some 2)

abbrev origin_step : ReplicationOriginAdvance
origin_step = new_replication_origin_advance (bytes "n2") (bytes "n3") (bytes "app") 6 (some 3)

-- The object at 6 has advanced to the LSN of the databases.
abbrev advanced : World (Unit {0})
advanced = set_advanced_to idle 6 (bytes "0/1") (set_advanced_to idle 6 [] blank)

advance-InLockstep_example : InLockstep idle 6 slot_step origin_step advanced advanced
unfolding create_slot_advance create_origin_advance new_replication_slot_advance_from_cts
    new_replication_origin_advance
advance-InLockstep_example =
    advance-InLockstep idle 6 slot_step origin_step blank advanced advanced refl refl refl

create_slot_advance_fails_example : (set_advanced_to mute 6 [] blank).advanced_to 6 ≡ []
unfolding create_slot_advance new_replication_slot_advance_from_cts
create_slot_advance_fails_example =
    create_slot_advance_fails mute 6 slot_step blank (set_advanced_to mute 6 [] blank)
      (context (bytes "get target LSN from commit_ts for " ++ slot_name slot_step)
        (to_error no_rows))
      refl

abbrev catchup : PeerCatchup
catchup = new_peer_catchup (bytes "n2") (bytes "n1") 3 (some 1)

poll_catchup-CatchesUp_example :
    (e : Unit {0}) × (poll_catchup agreeable false 1 catchup (bytes "0/1") tt ≡ some (none, e))
poll_catchup-CatchesUp_example =
    poll_catchup-CatchesUp agreeable false catchup (bytes "0/1") tt 1 (caught_up tt refl refl)
      (omega arith)

poll_catchup_sound_example :
    (last : Unit {0}) × (agreeable.query_bool catchup.conn
        (progress_reached (bytes "0/1") catchup.peer_name)
        last
      ≡ (answer true, tt))
unfolding poll_catchup
poll_catchup_sound_example = poll_catchup_sound agreeable false catchup (bytes "0/1") 1 tt tt refl

abbrev waiting : WaitForSyncEvent
waiting = new_wait_for_sync_event (bytes "n2") (bytes "n1") 3 (some 1)

-- The worker is down, then it runs and the event is not there yet. The state counts the rounds.
abbrev status_at : ℕ → Text
status_at zero = bytes "down"
status_at (suc n) = bytes "replicating"

abbrev received_at : ℕ → Bool
received_at zero = false
received_at (suc zero) = false
received_at (suc (suc n)) = true

abbrev waking : Driver ℕ
waking = record {
  query_bool = λ c q d. (answer (received_at d), suc d);
  query_rows = λ c q d. (answer [], d);
  query_sets = λ c d. (answer (record { scanned = []; rows_err = none }), d);
  query_set_tables = λ c d. (answer (record { scanned = []; rows_err = none }), d);
  query_text = λ c q d. (answer (status_at d), d);
  query_time = λ c q d. (answer 7, d);
  exec = λ c s d. (answer tt, d);
  begin = λ c d. (answer 0, d);
  tx_exec = λ t s d. (answer tt, d);
  tx_bool = λ t q d. (answer true, d);
  tx_text = λ t q d. (answer (bytes "0/1"), d);
  commit = λ t d. (answer tt, d);
  rollback = λ t d. d;
  ctx_err = λ d. none;
  sleep = λ n d. suc d;
}

poll_sync_event-Arrives_example :
    (e : ℕ) × (poll_sync_event waking false 3 waiting (bytes "0/1") 0 ≡ some (none, e))
poll_sync_event-Arrives_example =
    poll_sync_event-Arrives waking false waiting (bytes "0/1") 0 3
      (worker_starts 0 refl down refl
        (not_synced 1 refl replicating refl (synced 2 refl replicating refl)))
      (omega arith)

poll_sync_event_sound_example :
    (last : Unit {0}) × (running_worker.query_bool waiting.conn
        (wait_for_sync_event_call waiting.provider_name (bytes "0/1") 10)
        last
      ≡ (answer true, tt))
unfolding poll_sync_event health_of health text_eq
poll_sync_event_sound_example =
    poll_sync_event_sound running_worker false waiting (bytes "0/1") 1 tt tt refl

discover_orphans-lookup_example :
    lookup
      (ident resource_type_replication_slot
        (spock_slot_name (bytes "app") (bytes "n1") (bytes "n2")))
      (discover_orphans agreeable cfg conns (held, blank)).0
    ≡ lookup
        (ident resource_type_replication_slot
          (spock_slot_name (bytes "app") (bytes "n1") (bytes "n2")))
        held
unfolding expected_slots ReplicationSlot.slot_name new_replication_slot spock_slot_name text_eq
discover_orphans-lookup_example =
    discover_orphans-lookup agreeable cfg (spock_slot_name (bytes "app") (bytes "n1") (bytes "n2"))
      conns (held, blank) refl

-- A cluster whose databases still know a node and a slot that are not configured.
abbrev haunted : Driver (Unit {0})
haunted = record agreeable { query_rows = λ c q d. (answer (some (bytes "n3") ∷ none ∷ []), d) }

discover_orphans-lookup_node_example :
    lookup
      (ident resource_type_node (bytes "n1"))
      (discover_orphans haunted cfg conns (held, blank)).0
    ≡ lookup (ident resource_type_node (bytes "n1")) held
discover_orphans-lookup_node_example =
    discover_orphans-lookup_node haunted cfg (bytes "n1") conns (held, blank) refl
