-- ===== src/Spock/Databases/Refreshed.antt =====
-- `Refresh` of a resource (internal/spock) on databases of which a fact is known.
use pgedge_helm.Base.{Bool, true, false, Option, some, none, ◌≡◌, sym, subst, arith, inl, inr}
use pgedge_helm.Base.Text.{Text}
use pgedge_helm.Resource.{Error}
use pgedge_helm.Spock.Types.{Conn, Address}
use pgedge_helm.Spock.Subscription
use pgedge_helm.Spock.Subscription.{Subscription}
use pgedge_helm.Spock.World.{
  Driver, Answer-cases, Query, Tx, World, sub_exists, sub_enabled, no_status,
}
use pgedge_helm.Spock.Methods.{ask, with_status, existing, refresh_subscription}
use pgedge_helm.Spock.Databases.{Facts, says, IsDatabase}

-- A subscription is there and enabled.
abbrev pub Subscribed : Subscription → Facts → Type 0
Subscribed s F =
    (says (sub_exists (Subscription.sub_name s)) F ≡ some true)
    × (says (sub_enabled (Subscription.sub_name s)) F ≡ some true)

module _ {D : Type 0} (driver : Driver D) (view : Conn → D → Facts) (home : Tx → D → Conn)
    (pending : Tx → D → Facts) (database : IsDatabase driver view home pending) where
  -- `Refresh` by one query.
  abbrev pub refresh_by : Conn → Query → Text → Address → World D → Option Error × World D
  refresh_by c q what a =
      ask driver c q what (λ b v. (none, with_status driver a (existing driver b) v))

  pub refresh_by_lem :
      (c : Conn) (q : Query) (what : Text) (a : Address) (b : Bool) (w : World D)
      → says q (view c w.databases) ≡ some b
      → (refresh_by c q what a w).0 ≡ none
      → (refresh_by c q what a w).1.status a ≡ existing driver b
  refresh_by_lem c q what a b w e h = elim (Answer-cases (driver.query_bool c q w.databases).0) [
    | inr (x, failed) ↦ absurd (ground arith)
    | inl (found, asked) ↦ ground (arith, database.asks c q w.databases found b asked e)
  ]

  pub refresh_subscription-gone :
      (a : Address) (s : Subscription) (w : World D)
      → says (sub_exists (Subscription.sub_name s)) (view s.conn w.databases) ≡ some false
      → (refresh_subscription driver a s w).0 ≡ none
      → (refresh_subscription driver a s w).1.status a ≡ no_status
  unfolding refresh_subscription
  refresh_subscription-gone a s w e h =
      let name = Subscription.sub_name s in
      elim (Answer-cases (driver.query_bool s.conn (sub_exists name) w.databases).0) [
        | inr (x, failed) ↦ absurd (ground arith)
        | inl (found, asked) ↦
            ground (arith, database.asks s.conn (sub_exists name) w.databases found false asked e)
      ]

  pub refresh_subscription-existing :
      (a : Address) (s : Subscription) (w : World D)
      → Subscribed s (view s.conn w.databases)
      → (refresh_subscription driver a s w).0 ≡ none
      → (refresh_subscription driver a s w).1.status a ≡ existing driver true
  unfolding refresh_subscription
  refresh_subscription-existing a s w (there, on) h =
      let name = Subscription.sub_name s in
      let r = driver.query_bool s.conn (sub_exists name) w.databases in
      elim (Answer-cases r.0) [
        | inr (x, failed) ↦ absurd (ground arith)
        | inl (c, asked) ↦
            let p : c ≡ true =
              database.asks s.conn (sub_exists name) w.databases c true asked there in
            let q = driver.query_bool s.conn (sub_enabled name) r.1 in
            elim (Answer-cases q.0) [
              | inr (x, failed) ↦ absurd (ground arith)
              | inl (e, enabled) ↦
                  let p2 : e ≡ true = database.asks s.conn (sub_enabled name) r.1 e true enabled (
                    subst (λ F. says (sub_enabled name) F ≡ some true)
                      (sym (database.ask_keeps s.conn s.conn (sub_exists name) w.databases)) on) in
                  ground arith
            ]
      ]
