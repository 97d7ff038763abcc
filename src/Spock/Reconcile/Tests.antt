-- ===== src/Spock/Reconcile/Tests.antt =====
-- Phases of a populate run: two slots on different nodes, then an event, then the wait for it.
use pgedge_helm.Base.{
  zero, suc, Bool, true, false, ◌≡◌, ◌↔◌, refl, List, [], ◌∷◌, some, none, arith, Bool-cases, inl,
  inr,
}
use pgedge_helm.Base.Text.{Text, bytes, text_eq}
use pgedge_helm.Resource.{Event, create}
use pgedge_helm.Resource.Execute.{run_event, execute}
use pgedge_helm.Resource.Execute.Schedules.{Commute, Schedules, execute-Schedules}
use pgedge_helm.Spock.Types.{Conn}
use pgedge_helm.Spock.ReplicationSlotCreate.{new_replication_slot_create}
use pgedge_helm.Spock.SyncEvent.{new_sync_event}
use pgedge_helm.Spock.WaitForSyncEvent.{new_wait_for_sync_event}
use pgedge_helm.Spock.Object.{Object, slot_create, sync_event, wait_for_sync_event}
use pgedge_helm.Spock.World.{
  Driver, World, Query, TextQuery, answer, no_status, slot_exists, sub_status,
}
use pgedge_helm.Spock.Changes.{create_replication_slot}
use pgedge_helm.Spock.Advance.{set_lsn, create_sync_event}
use pgedge_helm.Spock.Waiting.{create_wait_for_sync_event, poll_sync_event, health, health_of}
use pgedge_helm.Spock.Reconcile.{create_body, spock_api}

-- Whether the slot for the new node is there, on the first and on the second node.
abbrev Slots : Type 0
Slots = Bool × Bool

abbrev there : Conn → Slots → Bool
there none d = false
there (some zero) d = d.0
there (some (suc n)) d = d.1

abbrev made : Conn → Slots → Slots
made none d = d
made (some zero) d = (true, d.1)
made (some (suc n)) d = (d.0, true)

abbrev asked : Query → Conn → Slots → Bool
asked q c d = elim q [ slot_exists name ↦ there c d | _ ↦ true ]

abbrev told : TextQuery → Text
told q = elim q [ sub_status name ↦ bytes "replicating" | _ ↦ bytes "0/1" ]

abbrev two_nodes : Driver Slots
two_nodes = record {
  query_bool = λ c q d. (answer (asked q c d), d);
  query_rows = λ c q d. (answer [], d);
  query_sets = λ c d. (answer (record { scanned = []; rows_err = none }), d);
  query_set_tables = λ c d. (answer (record { scanned = []; rows_err = none }), d);
  query_text = λ c q d. (answer (told q), d);
  query_time = λ c q d. (answer 7, d);
  exec = λ c s d. (answer tt, made c d);
  begin = λ c d. (answer 0, d);
  tx_exec = λ t s d. (answer tt, d);
  tx_bool = λ t q d. (answer true, d);
  tx_text = λ t q d. (answer (told q), d);
  commit = λ t d. (answer tt, d);
  rollback = λ t d. d;
  ctx_err = λ d. none;
  sleep = λ n d. d;
}

abbrev creating : Object → Event Object
creating o = record { action = create; resource = o }

abbrev slot_at : Conn → Text → Event Object
slot_at c name = creating (record {
  address = 0;
  body = slot_create (new_replication_slot_create name (bytes "n3") (bytes "app") c);
})

abbrev event_at : Event Object
event_at = creating (record {
  address = 1;
  body = sync_event (new_sync_event (bytes "n2") (bytes "n1") (some 1) []);
})

abbrev wait_at : Event Object
wait_at = creating (record {
  address = 2;
  body = wait_for_sync_event (new_wait_for_sync_event (bytes "n2") (bytes "n1") 1 (some 0));
})

abbrev phases : List (List (Event Object))
phases =
    (slot_at (some 0) (bytes "n1") ∷ slot_at (some 1) (bytes "n2") ∷ [])
    ∷ (event_at ∷ [])
    ∷ (wait_at ∷ [])
    ∷ []

abbrev before : World Slots
before = record {
  next = 3;
  status = λ a. no_status;
  lsn = λ a. [];
  commit_ts = λ a. none;
  advanced_to = λ a. [];
  databases = (false, false);
}

slots-Commute :
    Commute (spock_api two_nodes 1) (slot_at (some 1) (bytes "n2")) (slot_at (some 0) (bytes "n1"))
unfolding run_event create_body create_replication_slot new_replication_slot_create
slots-Commute w v u h k = elim (Bool-cases w.databases.0) [
  | inl first ↦ elim (Bool-cases w.databases.1) [
    | inl second ↦ (w, ground arith, ground arith)
    | inr second ↦ (w, ground arith, ground arith)
  ]
  | inr first ↦ elim (Bool-cases w.databases.1) [
    | inl second ↦ (record w { databases = (true, w.databases.1) }, ground arith, ground arith)
    | inr second ↦ (record w { databases = (true, w.databases.1) }, ground arith, ground arith)
  ]
]

abbrev after : World Slots
after = record (set_lsn two_nodes 1 (bytes "0/1") before) { databases = (true, true) }

phases_run : execute (spock_api two_nodes 1) phases before ≡ (none, after)
unfolding execute run_event create_body create_replication_slot new_replication_slot_create
    create_sync_event new_sync_event create_wait_for_sync_event new_wait_for_sync_event
    poll_sync_event health health_of text_eq
phases_run = refl

execute-Schedules_example :
    (execute (spock_api two_nodes 1) phases before ≡ (none, after))
    ↔ Schedules (spock_api two_nodes 1) phases before after
execute-Schedules_example =
    execute-Schedules (spock_api two_nodes 1) phases before after
      (((slots-Commute, tt), (tt, tt)), ((tt, tt), ((tt, tt), tt)))
