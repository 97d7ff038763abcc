-- ===== src/Spock/Waiting.antt =====
-- internal/spock: `Create` of `WaitForSyncEvent` and of `PeerCatchup`, which poll.
pub mod Polls
use pgedge_helm.Base.{
  ℕ, zero, suc, ◌*◌, Bool, true, false, ◌||◌, ◌++◌, List, [], ◌∷◌, Option, none, some,
  if◌then◌else◌, ◌==◌,
}
use pgedge_helm.Base.Text.{Text, bytes, text_key, text_eq}
use pgedge_helm.Resource.{Error, message}
use pgedge_helm.Spock.Names.{spock_sub_name}
use pgedge_helm.Spock.WaitForSyncEvent.{WaitForSyncEvent}
use pgedge_helm.Spock.PeerCatchup.{PeerCatchup}
use pgedge_helm.Spock.World.{
  Driver, Answer, answer, failure, World, progress_reached, wait_for_sync_event_call, sub_status,
}
use pgedge_helm.Spock.Flow.{refused}

-- `peerCatchupPollInterval`, in milliseconds, and `syncEventTimeout`, in seconds.
abbrev pub peer_catchup_poll_interval : ℕ
peer_catchup_poll_interval = 500

abbrev pub sync_event_timeout : ℕ
sync_event_timeout = 10

-- What the loop does about the status of the subscription.
pub data Health : Type 0 where
  running starting : Health
  unhealthy : (status : Text) → Health

unfoldable pub health : Text → Health
unfolding text_eq
health status =
    if status == bytes "initializing"
      || (status == bytes "replicating" || status == bytes "unknown")
    then running
    else if status == bytes "disabled" || status == bytes "down"
    then starting
    else unhealthy status

-- A query of the status that fails is only logged, and the loop goes on.
unfoldable pub health_of : Answer Text → Health
health_of (answer status) = health status
health_of (failure e) = running

-- A loop that has not ended when the fuel is used up is `none`.
module _ {D : Type 0} (driver : Driver D) (cancelled : Bool) where
  abbrev pub context_error : D → Option Error
  context_error d =
      if cancelled then some (message (bytes "context canceled")) else driver.ctx_err d

  abbrev pub at_databases : World D → D → World D
  at_databases w d = record w { databases = d }

  -- The loop of `PeerCatchup.Create`, over the state of the databases.
  unfoldable pub poll_catchup : ℕ → PeerCatchup → Text → D → Option (Option Error × D)
  poll_catchup zero r lsn d = none
  poll_catchup (suc fuel) r lsn d =
      let (result, d1) = driver.query_bool r.conn (progress_reached lsn r.peer_name) d in
      let d2 = driver.sleep peer_catchup_poll_interval d1 in
      let rest = poll_catchup fuel r lsn d2 in
      elim (context_error d) [
        | some e ↦ some (some e, d)
        | none ↦ elim result [
          | failure e ↦ some (
            refused
                (bytes "query spock.progress on "
                  ++ (r.source_name ++ (bytes " for peer " ++ r.peer_name)))
                e,
            d1,
          )
          | answer reached ↦
              if reached
              then some (none, d1)
              else elim (context_error d2) [ some e ↦ some (some e, d2) | none ↦ rest ]
        ]
      ]

  -- The loop of `WaitForSyncEvent.Create`.
  unfoldable pub poll_sync_event : ℕ → WaitForSyncEvent → Text → D → Option (Option Error × D)
  poll_sync_event zero r lsn d = none
  poll_sync_event (suc fuel) r lsn d =
      let sub_name = spock_sub_name r.provider_name r.subscriber_name in
      let (shown, d1) = driver.query_text r.conn (sub_status sub_name) d in
      let d2 = driver.sleep (1000 * sync_event_timeout) d1 in
      let (result, d3) =
        driver.query_bool r.conn (wait_for_sync_event_call r.provider_name lsn sync_event_timeout)
          d1 in
      let rest = poll_sync_event fuel r lsn (elim (health_of shown) [ starting ↦ d2 | _ ↦ d3 ]) in
      elim (context_error d) [
        | some e ↦ some (some e, d)
        | none ↦ elim (health_of shown) [
          | unhealthy status ↦ some (
            some (
                message (
                  bytes "subscription has unhealthy status "
                  ++ (status
                      ++ (bytes ": provider="
                          ++ (r.provider_name ++ (bytes " subscriber=" ++ r.subscriber_name)))))),
            d1,
          )
          | starting ↦ elim (context_error d2) [ some e ↦ some (some e, d2) | none ↦ rest ]
          | running ↦ elim result [
            | failure e ↦ some (
              refused
                  (bytes "wait_for_sync_event for "
                    ++ (r.provider_name ++ (bytes "→" ++ r.subscriber_name)))
                  e,
              d3,
            )
            | answer synced ↦ if synced then some (none, d3) else rest
          ]
        ]
      ]

  abbrev pub with_databases : World D → Option (Option Error × D) → Option (Option Error × World D)
  with_databases w none = none
  with_databases w (some (result, d)) = some (result, at_databases w d)

  -- `r.syncEvent == nil || r.syncEvent.LSN == ""`. The pointer is never nil here.
  abbrev pub with_lsn :
      Text → (Text → Option (Option Error × D)) → World D → Text → Option (Option Error × World D)
  with_lsn what poll w [] = some (some (message what), w)
  with_lsn what poll w (c ∷ cs) = with_databases w (poll (c ∷ cs))

  unfoldable pub create_peer_catchup : ℕ → PeerCatchup → World D → Option (Option Error × World D)
  unfolding poll_catchup
  create_peer_catchup fuel r w =
      with_lsn
        (bytes "sync event LSN not available for peer catchup "
          ++ (r.peer_name ++ (bytes "→" ++ r.source_name)))
        (λ lsn. poll_catchup fuel r lsn w.databases) w (w.lsn r.sync_event)

  unfoldable pub create_wait_for_sync_event :
      ℕ → WaitForSyncEvent → World D → Option (Option Error × World D)
  unfolding poll_sync_event health health_of
  create_wait_for_sync_event fuel r w =
      with_lsn
        (bytes "sync event LSN not available for "
          ++ (r.provider_name ++ (bytes "→" ++ r.subscriber_name)))
        (λ lsn. poll_sync_event fuel r lsn w.databases) w (w.lsn r.sync_event)
