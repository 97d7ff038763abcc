-- ===== src/Spock/Changes/Aborted.antt =====
-- `DisabledSubscription.Create` (internal/spock/disabled_subscription.go) behind a failed statement.
use pgedge_helm.Base.{◌≡◌, ◌++◌, some, arith, false, inl, inr, Bool-cases}
use pgedge_helm.Base.Text.{bytes}
use pgedge_helm.Resource.{Error, context}
use pgedge_helm.Spock.DisabledSubscription
use pgedge_helm.Spock.DisabledSubscription.{DisabledSubscription}
use pgedge_helm.Spock.World.{
  Driver, DriverError, answer, failure, Statement, Tx, World, repair_mode, sub_create, to_error,
}
use pgedge_helm.Spock.Flow.{is_duplicate}
use pgedge_helm.Spock.Changes.{create_disabled_subscription, dsn_of}

-- PostgreSQL: a transaction in which a statement failed does not commit.
abbrev pub Aborts : {D : Type 0} → Driver D → Type 0
Aborts {D} driver =
    (tx : Tx) (s : Statement) (d : D) (e : DriverError)
    → (driver.tx_exec tx s d).0 ≡ failure e
    → (x : DriverError) × ((driver.commit tx (driver.tx_exec tx s d).1).0 ≡ failure x)

-- `DisabledSubscription.Create` returns an error whenever its `sub_create` fails, also where it fails
-- because the subscription exists, which the method means to pass over: the failed statement has
-- aborted the transaction, so that the commit fails.
pub create_disabled_subscription-Aborts :
    {D : Type 0} (driver : Driver D)
    → Aborts driver
    → (s : DisabledSubscription) (w : World D) (tx : Tx) (e : DriverError)
    → (driver.begin s.conn w.databases).0 ≡ answer tx
    → (driver.tx_exec tx repair_mode (driver.begin s.conn w.databases).1).0 ≡ answer tt
    → (driver.tx_exec tx
        (sub_create
          (DisabledSubscription.sub_name s)
          (dsn_of s.src.hostname s.db_name s.pgedge_user)
          false
          false)
        (driver.tx_exec tx repair_mode (driver.begin s.conn w.databases).1).1).0
      ≡ failure e
    → (x : Error) × ((create_disabled_subscription driver s w).0 ≡ some x)
unfolding create_disabled_subscription
create_disabled_subscription-Aborts driver aborts s w tx e begun repaired failed =
    let make =
      sub_create (DisabledSubscription.sub_name s) (dsn_of s.src.hostname s.db_name s.pgedge_user)
        false false in
    let d = (driver.tx_exec tx repair_mode (driver.begin s.conn w.databases).1).1 in
    let (x, stuck) = aborts tx make d e failed in
    elim (Bool-cases (is_duplicate e)) [
      | inl duplicate ↦ (
        context (bytes "commit disabled subscription " ++ DisabledSubscription.sub_name s)
            (to_error x),
        ground arith,
      )
      | inr unknown ↦ (
        context (bytes "create disabled subscription " ++ DisabledSubscription.sub_name s)
            (to_error e),
        ground arith,
      )
    ]
