-- ===== src/Spock/Advance.antt =====
-- internal/spock: `Create` of the steps that leave an LSN or a timestamp in their object, and of those
-- that read it: sync events, the lag tracker, the advances of slot and origin.
pub mod Lockstep
use pgedge_helm.Base.{
  ℕ, zero, suc, Bool, true, false, ◌++◌, List, [], ◌∷◌, Option, none, some, if◌then◌else◌, ◌==◌,
}
use pgedge_helm.Base.Text.{Text, bytes, text_key, text_eq}
use pgedge_helm.Resource.{Error}
use pgedge_helm.Spock.Types.{Address}
use pgedge_helm.Spock.SyncEvent.{SyncEvent}
use pgedge_helm.Spock.LagTracker.{LagTrackerCommitTimestamp}
use pgedge_helm.Spock.SlotAdvance
use pgedge_helm.Spock.SlotAdvance.{ReplicationSlotAdvanceFromCts}
use pgedge_helm.Spock.OriginAdvance
use pgedge_helm.Spock.OriginAdvance.{ReplicationOriginAdvance}
use pgedge_helm.Spock.World.{
  DriverError, no_rows, pg_error, other_error, Driver, Answer, answer, failure, World, set_at,
  repair_mode, send_sync_event, lag_commit_timestamp, lsn_from_commit_ts, slot_active, restart_lsn,
  lsn_at_or_before, advance_slot, ensure_origin, advance_origin,
}
use pgedge_helm.Spock.Flow.{
  Flow, goes, returns, Method, ◌>>=◌, ◌>>◌, leave, leave_if, assign, call, refused, finish, in_tx,
  tx_do, commit_tx,
}

abbrev pub is_no_rows : DriverError → Bool
is_no_rows no_rows = true
is_no_rows (pg_error code) = false
is_no_rows (other_error text) = false

module _ {D : Type 0} (driver : Driver D) where
  abbrev pub set_lsn : Address → Text → World D → World D
  set_lsn a l w = record w { lsn = set_at a l w.lsn }

  abbrev pub set_commit_ts : Address → Option ℕ → World D → World D
  set_commit_ts a t w = record w { commit_ts = set_at a t w.commit_ts }

  abbrev pub set_advanced_to : Address → Text → World D → World D
  set_advanced_to a l w = record w { advanced_to = set_at a l w.advanced_to }

  -- The LSN is set before the commit.
  unfoldable pub create_sync_event : Address → SyncEvent → World D → Option Error × World D
  create_sync_event a r =
      in_tx driver r.conn
        (bytes "begin tx for sync event " ++ (r.provider_name ++ (bytes "→" ++ r.subscriber_name)))
        (λ tx. do
          tx_do driver tx repair_mode (bytes "repair mode for sync event")
          lsn ←
              call (refused (bytes "sync event on " ++ r.provider_name))
                (driver.tx_text tx send_sync_event)
          assign (set_lsn a lsn)
          commit_tx driver tx (bytes "commit sync event"))

  -- `errors.Is(err, pgx.ErrNoRows)` leaves no timestamp, and is no error.
  unfoldable pub create_lag_tracker :
      Address → LagTrackerCommitTimestamp → World D → Option Error × World D
  create_lag_tracker a r w =
      let (result, d) =
        driver.query_time r.conn (lag_commit_timestamp r.origin_name r.receiver_name) w.databases in
      let v = record w { databases = d } in
      elim result [
        | answer ts ↦ (none, set_commit_ts a (some ts) v)
        | failure e ↦ if is_no_rows e then (none, set_commit_ts a none v) else (
          refused (bytes "query lag tracker " ++ (r.origin_name ++ (bytes "→" ++ r.receiver_name)))
              e,
          v,
        )
      ]

  -- What of the slot advance follows once there is a timestamp.
  abbrev pub advance_to_timestamp :
      Address → ReplicationSlotAdvanceFromCts → ℕ → Method D (Unit {0})
  advance_to_timestamp a r ts =
      let name = SlotAdvance.slot_name r in
      do
        target ←
            call (refused (bytes "get target LSN from commit_ts for " ++ name))
              (driver.query_text r.conn (lsn_from_commit_ts name ts))
        is_active ←
            call (refused (bytes "check slot active " ++ name))
              (driver.query_bool r.conn (slot_active name))
        leave_if is_active
        current ←
            call (refused (bytes "read current slot lsn " ++ name))
              (driver.query_text r.conn (restart_lsn name))
        at_or_before ←
            call (refused (bytes "compare slot lsn " ++ name))
              (driver.query_bool r.conn (lsn_at_or_before target current))
        leave_if at_or_before
        call (refused (bytes "advance slot " ++ (name ++ (bytes " to " ++ target))))
            (driver.exec r.conn (advance_slot name target))
        assign (set_advanced_to a target)

  -- No timestamp, or the zero time: there is nothing to advance to.
  abbrev pub advance_if_known :
      Address → ReplicationSlotAdvanceFromCts → Option ℕ → Method D (Unit {0})
  advance_if_known a r none = leave none
  advance_if_known a r (some zero) = leave none
  advance_if_known a r (some (suc n)) = advance_to_timestamp a r (suc n)

  unfoldable pub create_slot_advance :
      Address → ReplicationSlotAdvanceFromCts → World D → Option Error × World D
  create_slot_advance a r w0 =
      let w = set_advanced_to a [] w0 in finish (advance_if_known a r (w.commit_ts r.lag_tracker)) w

  abbrev pub advance_origin_to : ReplicationOriginAdvance → Text → Method D (Unit {0})
  advance_origin_to r [] = leave none
  advance_origin_to r (c ∷ cs) =
      let name = OriginAdvance.origin_name r in
      do
        call (refused (bytes "ensure replication origin " ++ name))
            (driver.exec r.conn (ensure_origin name))
        call (refused (bytes "advance replication origin " ++ (name ++ (bytes " to " ++ (c ∷ cs)))))
            (driver.exec r.conn (advance_origin name (c ∷ cs)))

  unfoldable pub create_origin_advance : ReplicationOriginAdvance → World D → Option Error × World D
  create_origin_advance r w = finish (advance_origin_to r (w.advanced_to r.slot_advance)) w
