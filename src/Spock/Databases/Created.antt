-- ===== src/Spock/Databases/Created.antt =====
-- `Create` and then `Refresh` of a resource (internal/spock): what was created is found.
use pgedge_helm.Base.{
  ℕ, Bool, true, ◌&&◌, not, ap, subst, some, none, ◌≡◌, refl, arith, inl, inr, Bool-cases, ◌++◌,
  ==_refl,
}
use pgedge_helm.Base.Text.{Text, bytes, text_key}
use pgedge_helm.Spock.Types.{Conn, Address}
use pgedge_helm.Spock.User.{PgEdgeUser}
use pgedge_helm.Spock.SpockNode.{SpockNode}
use pgedge_helm.Spock.Subscription
use pgedge_helm.Spock.Subscription.{Subscription}
use pgedge_helm.Spock.Object.{Body, user, node, subscription}
use pgedge_helm.Spock.World.{
  Driver, Answer-cases, Tx, World, role_exists, local_node_exists, sub_exists, sub_enabled,
  disabled_sub_exists, sub_enable, sub_create, create_role, node_create, repair_mode,
}
use pgedge_helm.Spock.Flow.{
  Method, ◌>>=◌, ◌>>◌, call, when, leave, tx_do, commit_tx, finish, refused, unless_duplicate,
}
use pgedge_helm.Spock.Methods.{existing, refresh_user, refresh_node, refresh_body}
use pgedge_helm.Spock.Changes.{create_user, create_node, create_subscription, dsn_of}
use pgedge_helm.Spock.Reconcile.{create_body}
use pgedge_helm.Spock.Databases
use pgedge_helm.Spock.Databases.{Facts, says, changes, made_sub, put, IsDatabase}
use pgedge_helm.Spock.Databases.Refreshed.{
  Subscribed, refresh_by_lem, refresh_subscription-existing,
}
use pgedge_helm.Spock.Databases.Transactions.{
  IsOpen, unless_duplicate-Spares, refused-Spares, change, tx_ask_lem, change_lem, one_change_lem,
  behind_lem,
}

module _ {D : Type 0} (driver : Driver D) (view : Conn → D → Facts) (home : Tx → D → Conn)
    (pending : Tx → D → Facts) (database : IsDatabase driver view home pending) where
  create_user-role :
      (u : PgEdgeUser) (w : World D)
      → (create_user driver u w).0 ≡ none
      → says (role_exists u.pgedge_user) (view u.conn (create_user driver u w).1.databases)
        ≡ some true
  unfolding create_user
  create_user-role u w h =
      one_change_lem driver view home pending database u.conn (bytes "begin tx on " ++ u.node.name)
        repair_mode (bytes "repair mode on " ++ u.node.name)
        (bytes "commit pgedge user on " ++ u.node.name) refl
        (unless_duplicate (bytes "create pgedge user on " ++ u.node.name))
        (create_role u.pgedge_user) (unless_duplicate-Spares _ (create_role u.pgedge_user) refl)
        (λ F. record F { roles = put u.pgedge_user true F.roles }) refl w h
        (role_exists u.pgedge_user) true (ground (arith, ==_refl u.pgedge_user))

  -- `node_create` is skipped where spock.node has the name of another node.
  abbrev pub IsFree : Facts → Text → Type 0
  IsFree F name = F.nodes name ≡ true → F.local_nodes name ≡ true

  create_node-local :
      (n : SpockNode) (w : World D)
      → IsFree (view n.conn w.databases) n.node.name
      → (create_node driver n w).0 ≡ none
      → says (local_node_exists n.node.name) (view n.conn (create_node driver n w).1.databases)
        ≡ some true
  unfolding create_node
  create_node-local n w free h =
      let dsn = dsn_of n.node.hostname n.db_name n.pgedge_user in
      one_change_lem driver view home pending database n.conn (bytes "begin tx on " ++ n.node.name)
        repair_mode (bytes "enable repair mode on " ++ n.node.name)
        (bytes "commit spock node " ++ n.node.name) refl
        (unless_duplicate (bytes "create spock node " ++ n.node.name)) (node_create n.node.name dsn)
        (unless_duplicate-Spares _ (node_create n.node.name dsn) refl)
        (Databases.made_node n.node.name) refl w h (local_node_exists n.node.name) true
        (ground (arith, ==_refl n.node.name))

  -- The body of the transaction of `Subscription.Create`.
  abbrev subscribing : Subscription → Tx → Method D (Unit {0})
  subscribing s tx =
      let name = Subscription.sub_name s in
      (do
        exists_disabled ←
            call (refused (bytes "check disabled subscription " ++ name))
              (driver.tx_bool tx (disabled_sub_exists name))
        when exists_disabled (do
          tx_do driver tx (sub_enable name) (bytes "enable subscription " ++ name)
          commit_tx driver tx (bytes "commit enable subscription " ++ name)
          leave none)
        call (unless_duplicate (bytes "create subscription " ++ name)) (
            driver.tx_exec tx
              (sub_create name (dsn_of s.src.hostname s.db_name s.pgedge_user) s.sync true))
        commit_tx driver tx (bytes "commit subscription " ++ name))

  subscribing-Subscribed :
      (s : Subscription) (F : Facts) (tx : Tx) (v : World D)
      → IsOpen driver view home pending database true s.conn F tx v.databases
      → (finish (subscribing s tx) v).0 ≡ none
      → Subscribed s (view s.conn (finish (subscribing s tx) v).1.databases)
  subscribing-Subscribed s F tx v opened h =
      let name = Subscription.sub_name s in
      let r = driver.tx_bool tx (disabled_sub_exists name) v.databases in
      let u = record v { databases = r.1 } in
      let still =
        tx_ask_lem driver view home pending database true s.conn F tx (disabled_sub_exists name)
          v.databases opened in
      elim (Answer-cases r.0) [
        | inr (x, failed) ↦ absurd (ground arith)
        | inl (disabled, asked) ↦
            let answers =
              database.tx_asks tx (disabled_sub_exists name) v.databases disabled
                (F.subs name && not (F.enabled name)) asked
                (ap (λ G. says (disabled_sub_exists name) G) opened.sees) in
            elim (Bool-cases disabled) [
              | inl yes_disabled ↦
                  let cw = bytes "commit enable subscription " ++ name in
                  let fails = refused (bytes "enable subscription " ++ name) in
                  let f : Facts → Facts = λ G. record G { enabled = put name true G.enabled } in
                  let same : finish (change driver tx cw fails (sub_enable name)) u
                      ≡ finish (subscribing s tx) v =
                    ground arith in
                  let made =
                    change_lem driver view home pending database true s.conn F tx cw fails
                      (sub_enable name) (refused-Spares _ true (sub_enable name)) f refl u still
                      (ground (arith, same)) in
                  subst (λ p. Subscribed s (view s.conn p.1.databases)) same
                    (
                      made (sub_exists name) true (ground arith),
                      made (sub_enabled name) true (ground (arith, ==_refl name)),
                    )
              | inr not_disabled ↦
                  let cw = bytes "commit subscription " ++ name in
                  let fails = unless_duplicate (bytes "create subscription " ++ name) in
                  let dsn = dsn_of s.src.hostname s.db_name s.pgedge_user in
                  let same : finish (change driver tx cw fails (sub_create name dsn s.sync true)) u
                      ≡ finish (subscribing s tx) v =
                    ground arith in
                  let made =
                    change_lem driver view home pending database true s.conn F tx cw fails
                      (sub_create name dsn s.sync true)
                      (unless_duplicate-Spares _ (sub_create name dsn s.sync true) refl)
                      (made_sub name true) refl u still (ground (arith, same)) in
                  subst (λ p. Subscribed s (view s.conn p.1.databases)) same
                    (
                      made (sub_exists name) true (ground (arith, ==_refl name)),
                      made (sub_enabled name) true (ground (arith, ==_refl name)),
                    )
            ]
      ]

  create_subscription-Subscribed :
      (s : Subscription) (w : World D)
      → (create_subscription driver s w).0 ≡ none
      → Subscribed s (view s.conn (create_subscription driver s w).1.databases)
  unfolding create_subscription
  create_subscription-Subscribed s w h =
      let name = Subscription.sub_name s in
      behind_lem driver view home pending database (Subscribed s) s.conn
        (bytes "begin tx for subscription " ++ name) repair_mode
        (bytes "repair mode for subscription " ++ name) refl (subscribing s) w h
        (subscribing-Subscribed s (view s.conn w.databases))

  -- The resources whose `Create` makes what their `Refresh` looks for.
  pub data IsMade (w : World D) : Body → Type 0 where
    made_user : (u : PgEdgeUser) → IsMade w (user u)
    made_node : (n : SpockNode) → IsFree (view n.conn w.databases) n.node.name → IsMade w (node n)
    made_subscription : (s : Subscription) → IsMade w (subscription s)

  -- When `Create` of a role, a node or a subscription succeeds and `Refresh` behind it succeeds, the
  -- status of the object says that it exists and asks for no change, on databases that do what
  -- PostgreSQL and Spock document; a node where spock.node does not have its name for another node.
  pub create_body-refresh_body :
      (fuel : ℕ) (a : Address) (b : Body) (cancelled : Bool) (w : World D)
      → IsMade w b
      → (create_body driver fuel a b cancelled w).0 ≡ none
      → (refresh_body driver a b (create_body driver fuel a b cancelled w).1).0 ≡ none
      → (refresh_body driver a b (create_body driver fuel a b cancelled w).1).1.status a
        ≡ existing driver true
  unfolding create_body refresh_body refresh_user refresh_node
  create_body-refresh_body fuel a _ cancelled w (made_user u) h k =
      refresh_by_lem driver view home pending database u.conn (role_exists u.pgedge_user)
        (bytes "inspect pgedge user on " ++ u.node.name) a true (create_user driver u w).1
        (create_user-role u w h) k
  create_body-refresh_body fuel a _ cancelled w (made_node n free) h k =
      refresh_by_lem driver view home pending database n.conn (local_node_exists n.node.name)
        (bytes "inspect spock node on " ++ n.node.name) a true (create_node driver n w).1
        (create_node-local n w free h) k
  create_body-refresh_body fuel a _ cancelled w (made_subscription s) h k =
      refresh_subscription-existing driver view home pending database a s
        (create_subscription driver s w).1 (create_subscription-Subscribed s w h) k
