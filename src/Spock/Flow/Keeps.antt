-- ===== src/Spock/Flow/Keeps.antt =====
-- The methods of internal/spock and what the calls on one connection leave as it is.
use pgedge_helm.Base.{◌≡◌, sym, subst, arith, Option, none, inl, inr}
use pgedge_helm.Base.Text.{Text, text_key}
use pgedge_helm.Resource.{Error}
use pgedge_helm.Spock.Types.{Conn}
use pgedge_helm.Spock.World.{
  DriverError, Answer, Answer-cases, answer, failure, Driver, Tx, Statement, Query, World,
}
use pgedge_helm.Spock.Flow.{Flow, goes, returns, Method, ◌>>=◌, ◌>>◌, call, finish, in_tx, tx_do}

-- What the calls on a connection leave as it is, such as the state of all other databases. `Inside`
-- says it within a transaction of that connection.
pub record Spares {D : Type 0} (driver : Driver D) (c : Conn) (P : D → Type 0)
    (Inside : Tx → D → Type 0) : Type 0 where
  pub query_bool : (q : Query) (d : D) → P d → P (driver.query_bool c q d).1
  pub query_sets : (d : D) → P d → P (driver.query_sets c d).1
  pub query_set_tables : (d : D) → P d → P (driver.query_set_tables c d).1
  pub exec : (s : Statement) (d : D) → P d → P (driver.exec c s d).1
  pub begin :
      (tx : Tx) (d : D) → (driver.begin c d).0 ≡ answer tx → P d → Inside tx (driver.begin c d).1
  pub begin_fails :
      (e : DriverError) (d : D) → (driver.begin c d).0 ≡ failure e → P d → P (driver.begin c d).1
  pub tx_exec :
      (tx : Tx) (s : Statement) (d : D) → Inside tx d → Inside tx (driver.tx_exec tx s d).1
  pub commit : (tx : Tx) (d : D) → Inside tx d → Inside tx (driver.commit tx d).1
  pub rollback : (tx : Tx) (d : D) → Inside tx d → P (driver.rollback tx d)

module _ {D : Type 0} where
  abbrev pub Keeps : {A : Type 0} → (P : D → Type 0) → Method D A → Type 0
  Keeps P m = (w : World D) → P w.databases → P (m w).1.databases

  pub flow_keeps :
      {A B : Type 0} (P : D → Type 0) (rest : A → Method D B)
      → ((a : A) → Keeps P (rest a))
      → (f : Flow A) (v : World D) → P v.databases
      → P
          (elim f as (λ x. Flow B × World D) [
            | returns e ↦ (returns e, v)
            | goes a ↦ rest a v
          ]).1.databases
  flow_keeps P rest k (goes a) v q = k a v q
  flow_keeps P rest k (returns e) v q = q

  pub bind_keeps :
      {A B : Type 0} (P : D → Type 0) (m : Method D A) (rest : A → Method D B)
      → Keeps P m
      → ((a : A) → Keeps P (rest a))
      → Keeps P (m >>= rest)
  bind_keeps P m rest h k w p = flow_keeps P rest k (m w).0 (m w).1 (h w p)

  pub then_keeps :
      {B : Type 0} (P : D → Type 0) (m : Method D (Unit {0})) (rest : Method D B)
      → Keeps P m
      → Keeps P rest
      → Keeps P (m >> rest)
  then_keeps P m rest h k w p = flow_keeps P (λ x. rest) (λ x. k) (m w).0 (m w).1 (h w p)

  pub call_keeps :
      {A : Type 0} (P : D → Type 0) (fails : DriverError → Option Error) (f : D → Answer A × D)
      → ((d : D) → P d → P (f d).1)
      → Keeps P (call fails f)
  call_keeps {A} P fails f h w p = go (f w.databases).0 (h w.databases p)
    where
      go :
          (r : Answer A)
          → P (f w.databases).1
          → P
              (elim r as (λ x. Flow A × World D) [
                | failure e ↦ (returns (fails e), record w { databases = (f w.databases).1 })
                | answer a ↦ (goes a, record w { databases = (f w.databases).1 })
              ]).1.databases
      go (answer a) q = q
      go (failure e) q = q

  pub finish_keeps :
      (P : D → Type 0) (m : Method D (Unit {0})) (w : World D)
      → P (m w).1.databases
      → P (finish m w).1.databases
  finish_keeps P m w h = go (m w).0 (m w).1 h
    where
      go :
          (f : Flow (Unit {0})) (v : World D)
          → P v.databases
          → P
              (elim f as (λ x. Option Error × World D) [
                | goes _ ↦ (none, v)
                | returns e ↦ (e, v)
              ]).1.databases
      go (goes x) v q = q
      go (returns e) v q = q

module _ {D : Type 0} (driver : Driver D) (c : Conn) (P : D → Type 0) (Inside : Tx → D → Type 0)
    (spares : Spares driver c P Inside) where
  pub tx_do_keeps :
      (tx : Tx) (s : Statement) (what : Text) → Keeps (Inside tx) (tx_do driver tx s what)
  tx_do_keeps tx s what = call_keeps (Inside tx) _ (driver.tx_exec tx s) (spares.tx_exec tx s)

  pub in_tx_keeps :
      (what : Text) (body : Tx → Method D (Unit {0}))
      → ((tx : Tx) → Keeps (Inside tx) (body tx))
      → (w : World D) → P w.databases
      → P (in_tx driver c what body w).1.databases
  in_tx_keeps what body keeps w p =
      let r = driver.begin c w.databases in
      let v = record w { databases = r.1 } in
      elim (Answer-cases r.0) [
        | inr (e, failed) ↦
            let same : (in_tx driver c what body w).1.databases ≡ r.1 = ground arith in
            subst P (sym same) (spares.begin_fails e w.databases failed p)
        | inl (tx, begun) ↦
            let inside = keeps tx v (spares.begin tx w.databases begun p) in
            let u = finish (body tx) v in
            let same : (in_tx driver c what body w).1.databases ≡ driver.rollback tx u.1.databases =
              ground arith in
            subst P (sym same)
              (spares.rollback tx u.1.databases (finish_keeps (Inside tx) (body tx) v inside))
      ]
