-- ===== src/Spock/Flow.antt =====
-- The shape of the methods `Create`, `Update` and `Delete` of internal/spock: calls of the driver in
-- sequence, each of which may end the method.
pub mod Keeps
use pgedge_helm.Base.{Bool, Option, none, some, if◌then◌else◌, ◌==◌}
use pgedge_helm.Base.Text.{Text, bytes, text_key}
use pgedge_helm.Resource.{Error, context}
use pgedge_helm.Spock.Types.{Conn}
use pgedge_helm.Spock.World.{
  DriverError, pg_error, no_rows, other_error, Answer, answer, failure, Driver, Tx, Statement,
  World, to_error,
}

-- Whether the method goes on, with a value, or has returned.
pub data Flow (A : Type 0) : Type 0 where
  goes : A → Flow A
  returns : Option Error → Flow A

abbrev pub Method : Type 0 → Type 0 → Type 0
Method D A = World D → Flow A × World D

-- `return fmt.Errorf("...: %w", err)`
abbrev pub refused : Text → DriverError → Option Error
refused what e = some (context what (to_error e))

abbrev pub pg_code_duplicate_object : Text
pg_code_duplicate_object = bytes "42710"

abbrev pub is_duplicate : DriverError → Bool
is_duplicate (pg_error code) = code == pg_code_duplicate_object
is_duplicate no_rows = Bool.false
is_duplicate (other_error text) = Bool.false

-- `return nil` if the object exists already.
abbrev pub unless_duplicate : Text → DriverError → Option Error
unless_duplicate what e = if is_duplicate e then none else refused what e

module _ {D : Type 0} where
  infixl 5 ◌>>=◌ ◌>>◌
  abbrev pub ◌>>=◌ : {A B : Type 0} → Method D A → (A → Method D B) → Method D B
  (m >>= rest) w =
      let (flow, v) = m w in elim flow [ returns e ↦ (returns e, v) | goes a ↦ rest a v ]

  abbrev pub ◌>>◌ : {B : Type 0} → Method D (Unit {0}) → Method D B → Method D B
  (m >> rest) w = let (flow, v) = m w in elim flow [ returns e ↦ (returns e, v) | goes _ ↦ rest v ]

  abbrev pub leave : {A : Type 0} → Option Error → Method D A
  leave e w = (returns e, w)

  -- `return nil` where a condition holds.
  abbrev pub leave_if : Bool → Method D (Unit {0})
  leave_if c w = if c then (returns none, w) else (goes tt, w)

  abbrev pub when : Bool → Method D (Unit {0}) → Method D (Unit {0})
  when c m w = if c then m w else (goes tt, w)

  -- An assignment to a field of an object.
  abbrev pub assign : (World D → World D) → Method D (Unit {0})
  assign f w = (goes tt, f w)

  -- A call, and what the method returns when it fails.
  abbrev pub call : {A : Type 0} → (DriverError → Option Error) → (D → Answer A × D) → Method D A
  call fails f w =
      let (result, d) = f w.databases in
      let v = record w { databases = d } in
      elim result [ failure e ↦ (returns (fails e), v) | answer a ↦ (goes a, v) ]

  -- The end of a method.
  abbrev pub finish : Method D (Unit {0}) → World D → Option Error × World D
  finish m w = let (flow, v) = m w in elim flow [ goes _ ↦ (none, v) | returns e ↦ (e, v) ]

  module _ (driver : Driver D) where
    -- `Begin`, with a deferred `Rollback`.
    abbrev pub in_tx : Conn → Text → (Tx → Method D (Unit {0})) → World D → Option Error × World D
    in_tx c what body w =
        let (result, d) = driver.begin c w.databases in
        let v = record w { databases = d } in
        elim result [
          | failure e ↦ (refused what e, v)
          | answer tx ↦
              let (done, u) = finish (body tx) v in
              (done, record u { databases = driver.rollback tx u.databases })
        ]

    abbrev pub tx_do : Tx → Statement → Text → Method D (Unit {0})
    tx_do tx s what = call (refused what) (driver.tx_exec tx s)

    abbrev pub commit_tx : Tx → Text → Method D (Unit {0})
    commit_tx tx what = call (refused what) (driver.commit tx)
