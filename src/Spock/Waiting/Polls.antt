-- ===== src/Spock/Waiting/Polls.antt =====
-- How the loops of `PeerCatchup.Create` and `WaitForSyncEvent.Create` (internal/spock) end.
use pgedge_helm.Base.{
  ℕ, zero, suc, refl, ◌<◌, ◌*◌, ◌≡◌, Bool, true, false, none, some, arith, Bool-cases, inl, inr,
}
use pgedge_helm.Base.Text.{Text, bytes, text_eq}
use pgedge_helm.Spock.Names.{spock_sub_name}
use pgedge_helm.Spock.WaitForSyncEvent.{WaitForSyncEvent}
use pgedge_helm.Spock.PeerCatchup.{PeerCatchup}
use pgedge_helm.Spock.World.{
  Driver, Answer, answer, failure, DriverError, progress_reached, wait_for_sync_event_call,
  sub_status,
}
use pgedge_helm.Spock.Waiting.{
  context_error, peer_catchup_poll_interval, sync_event_timeout, Health, health, health_of,
  starting, running, unhealthy, poll_catchup, poll_sync_event,
}

module _ {D : Type 0} (driver : Driver D) (cancelled : Bool) (r : PeerCatchup) (lsn : Text) where
  abbrev asked : D → Answer Bool × D
  asked d = driver.query_bool r.conn (progress_reached lsn r.peer_name) d

  abbrev slept : D → D
  slept d = driver.sleep peer_catchup_poll_interval (asked d).1

  -- From this state the databases say at the n-th poll, for the first time, that the source has
  -- caught up, and the context has not ended until then.
  pub data CatchesUp : D → ℕ → Type 0 where
    caught_up :
        (d : D)
        → context_error driver cancelled d ≡ none
        → (asked d).0 ≡ answer true
        → CatchesUp d 0
    behind :
        {n : ℕ} (d : D)
        → context_error driver cancelled d ≡ none
        → (asked d).0 ≡ answer false
        → CatchesUp (slept d) n
        → CatchesUp d (suc n)

  unended : {n : ℕ} (d : D) → CatchesUp d n → context_error driver cancelled d ≡ none
  unended d (caught_up _ h _) = h
  unended d (behind _ h _ _) = h

  -- The loop of `PeerCatchup.Create` ends with success once the databases say that the source has
  -- caught up, where no query fails and the context does not end until then: fuel for one poll more than
  -- came before is enough.
  pub poll_catchup-CatchesUp :
      {n : ℕ} (d : D) (fuel : ℕ)
      → CatchesUp d n
      → n < fuel
      → (e : D) × (poll_catchup driver cancelled fuel r lsn d ≡ some (none, e))
  unfolding poll_catchup
  poll_catchup-CatchesUp d zero c less = absurd (omega (arith, less))
  poll_catchup-CatchesUp d (suc fuel) (caught_up _ live here) less = ((asked d).1, ground arith)
  poll_catchup-CatchesUp d (suc fuel) (behind _ live short later) less =
      let (e, ends) = poll_catchup-CatchesUp (slept d) fuel later (omega (arith, less)) in
      (e, ground (arith, unended (slept d) later))

  -- When the loop of `PeerCatchup.Create` ends with success, the last that it did is a query of the
  -- progress, which said that the source has caught up.
  pub poll_catchup_sound :
      (fuel : ℕ) (d e : D)
      → poll_catchup driver cancelled fuel r lsn d ≡ some (none, e)
      → (last : D) × (asked last ≡ (answer true, e))
  unfolding poll_catchup
  poll_catchup_sound zero d e h = absurd (ground arith)
  poll_catchup_sound (suc fuel) d e h = elim (Bool-cases (is_yes (asked d).0)) [
    | inl reached ↦ (d, ground arith)
    | inr short ↦ poll_catchup_sound fuel (slept d) e (ground arith)
  ]
    where
      is_yes : Answer Bool → Bool
      is_yes (answer b) = b
      is_yes (failure x) = false

-- What `spock.sub_show_status` says where the worker runs, or may run. A query that fails is no reason
-- to give up.
pub data IsUp : Answer Text → Type 0 where
  initializing : IsUp (answer (bytes "initializing"))
  replicating : IsUp (answer (bytes "replicating"))
  unknown : IsUp (answer (bytes "unknown"))
  not_shown : (x : DriverError) → IsUp (failure x)

-- What it says where the worker may still start.
pub data IsStarting : Answer Text → Type 0 where
  disabled : IsStarting (answer (bytes "disabled"))
  down : IsStarting (answer (bytes "down"))

IsUp-running : (a : Answer Text) → IsUp a → health_of a ≡ running
unfolding health_of health text_eq
IsUp-running _ initializing = refl
IsUp-running _ replicating = refl
IsUp-running _ unknown = refl
IsUp-running _ (not_shown x) = refl

IsStarting-starting : (a : Answer Text) → IsStarting a → health_of a ≡ starting
unfolding health_of health text_eq
IsStarting-starting _ disabled = refl
IsStarting-starting _ down = refl

module _ {D : Type 0} (driver : Driver D) (cancelled : Bool) (r : WaitForSyncEvent)
    (lsn : Text) where
  abbrev shown : D → Answer Text × D
  shown d =
      driver.query_text r.conn (sub_status (spock_sub_name r.provider_name r.subscriber_name)) d

  abbrev awaited : D → Answer Bool × D
  awaited d =
      driver.query_bool r.conn (wait_for_sync_event_call r.provider_name lsn sync_event_timeout)
        (shown d).1

  abbrev backed_off : D → D
  backed_off d = driver.sleep (1000 * sync_event_timeout) (shown d).1

  -- From this state the event arrives in the n-th round, while the context does not end. In each round
  -- the subscription is up (`IsUp`), and the event is not there yet, or it is down or disabled
  -- (`IsStarting`).
  pub data Arrives : D → ℕ → Type 0 where
    synced :
        (d : D)
        → context_error driver cancelled d ≡ none
        → IsUp (shown d).0
        → (awaited d).0 ≡ answer true
        → Arrives d 0
    not_synced :
        {n : ℕ} (d : D)
        → context_error driver cancelled d ≡ none
        → IsUp (shown d).0
        → (awaited d).0 ≡ answer false
        → Arrives (awaited d).1 n
        → Arrives d (suc n)
    worker_starts :
        {n : ℕ} (d : D)
        → context_error driver cancelled d ≡ none
        → IsStarting (shown d).0
        → context_error driver cancelled (backed_off d) ≡ none
        → Arrives (backed_off d) n
        → Arrives d (suc n)

  -- The loop of `WaitForSyncEvent.Create` ends with success once the event arrives, where until then
  -- the context does not end, and in each round the status of the subscription is initializing,
  -- replicating, unknown or not shown, and the call says that the event is not there yet, or the
  -- status is disabled or down: fuel for one round more than came before is enough.
  pub poll_sync_event-Arrives :
      {n : ℕ} (d : D) (fuel : ℕ)
      → Arrives d n
      → n < fuel
      → (e : D) × (poll_sync_event driver cancelled fuel r lsn d ≡ some (none, e))
  unfolding poll_sync_event
  poll_sync_event-Arrives d zero c less = absurd (omega (arith, less))
  poll_sync_event-Arrives d (suc fuel) (synced _ live up here) less =
      let runs = IsUp-running (shown d).0 up in ((awaited d).1, ground arith)
  poll_sync_event-Arrives d (suc fuel) (not_synced _ live up out later) less =
      let runs = IsUp-running (shown d).0 up in
      let (e, ends) = poll_sync_event-Arrives (awaited d).1 fuel later (omega (arith, less)) in
      (e, ground arith)
  poll_sync_event-Arrives d (suc fuel) (worker_starts _ live up still later) less =
      let starts = IsStarting-starting (shown d).0 up in
      let (e, ends) = poll_sync_event-Arrives (backed_off d) fuel later (omega (arith, less)) in
      (e, ground arith)

  abbrev answered_yes : Answer Bool → Bool
  answered_yes (answer b) = b
  answered_yes (failure x) = false

  abbrev next_state : D → D
  next_state d = elim (health_of (shown d).0) [ starting ↦ backed_off d | _ ↦ (awaited d).1 ]

  -- When the loop of `WaitForSyncEvent.Create` ends with success, the last that it did is the call that
  -- waits for the event, which said that the subscriber has received it.
  pub poll_sync_event_sound :
      (fuel : ℕ) (d e : D)
      → poll_sync_event driver cancelled fuel r lsn d ≡ some (none, e)
      → (last : D) × (awaited last ≡ (answer true, e))
  unfolding poll_sync_event
  poll_sync_event_sound zero d e h = absurd (ground arith)
  poll_sync_event_sound (suc fuel) d e h = elim (Bool-cases (answered_yes (awaited d).0)) [
    | inl reached ↦ elim (Bool-cases (is_running (health_of (shown d).0))) [
      | inl up ↦ (d, ground arith)
      | inr idle ↦ poll_sync_event_sound fuel (next_state d) e (ground arith)
    ]
    | inr short ↦ poll_sync_event_sound fuel (next_state d) e (ground arith)
  ]
    where
      is_running : Health → Bool
      is_running running = true
      is_running starting = false
      is_running (unhealthy s) = false
