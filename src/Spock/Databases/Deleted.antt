-- ===== src/Spock/Databases/Deleted.antt =====
-- `Delete` and then `Refresh` of a resource (internal/spock): what was deleted is gone.
use pgedge_helm.Base.{
  true, false, some, none, ◌≡◌, refl, ap, subst, arith, inl, inr, Bool-cases, ◌++◌, ==_refl,
}
use pgedge_helm.Base.Text.{Text, bytes, text_key}
use pgedge_helm.Spock.Types.{Conn, Address}
use pgedge_helm.Spock.SpockNode.{SpockNode}
use pgedge_helm.Spock.ReplicationSlot
use pgedge_helm.Spock.ReplicationSlot.{ReplicationSlot}
use pgedge_helm.Spock.Subscription
use pgedge_helm.Spock.Subscription.{Subscription}
use pgedge_helm.Spock.Object.{Body, node, slot, subscription}
use pgedge_helm.Spock.World.{
  Driver, Answer-cases, Tx, World, local_node_exists, slot_exists, sub_exists, node_drop, drop_slot,
  sub_drop, repair_mode, terminate_walsender, no_status,
}
use pgedge_helm.Spock.Flow.{Method, ◌>>=◌, ◌>>◌, call, when, tx_do, commit_tx, finish, refused}
use pgedge_helm.Spock.Methods.{refresh_node, refresh_slot, refresh_body}
use pgedge_helm.Spock.Changes.{delete_node, delete_slot, delete_subscription}
use pgedge_helm.Spock.Reconcile.{delete_body}
use pgedge_helm.Spock.Databases.{Facts, says, put, IsDatabase}
use pgedge_helm.Spock.Databases.Refreshed.{refresh_by_lem, refresh_subscription-gone}
use pgedge_helm.Spock.Databases.Transactions.{
  IsOpen, refused-Spares, change, tx_ask_lem, change_lem, one_change_lem, behind_lem,
}

module _ {D : Type 0} (driver : Driver D) (view : Conn → D → Facts) (home : Tx → D → Conn)
    (pending : Tx → D → Facts) (database : IsDatabase driver view home pending) where
  delete_node-gone :
      (n : SpockNode) (w : World D)
      → (delete_node driver n w).0 ≡ none
      → says (local_node_exists n.node.name) (view n.conn (delete_node driver n w).1.databases)
        ≡ some false
  unfolding delete_node
  delete_node-gone n w h =
      let name = n.node.name in
      one_change_lem driver view home pending database n.conn (bytes "begin delete tx on " ++ name)
        repair_mode (bytes "enable repair mode on " ++ name)
        (bytes "commit drop spock node " ++ name) refl (refused (bytes "drop spock node " ++ name))
        (node_drop name) (refused-Spares _ true (node_drop name))
        (λ F. record F {
          nodes = put name false F.nodes;
          local_nodes = put name false F.local_nodes;
        })
        refl w h (local_node_exists name) false (ground (arith, ==_refl name))

  delete_subscription-gone :
      (s : Subscription) (w : World D)
      → (delete_subscription driver s w).0 ≡ none
      → says
          (sub_exists (Subscription.sub_name s))
          (view s.conn (delete_subscription driver s w).1.databases)
        ≡ some false
  unfolding delete_subscription
  delete_subscription-gone s w h =
      let name = Subscription.sub_name s in
      one_change_lem driver view home pending database s.conn (bytes "begin delete tx for " ++ name)
        repair_mode (bytes "repair mode for drop " ++ name)
        (bytes "commit drop subscription " ++ name) refl
        (refused (bytes "drop subscription " ++ name)) (sub_drop name)
        (refused-Spares _ true (sub_drop name))
        (λ F. record F { subs = put name false F.subs; enabled = put name false F.enabled }) refl w
        h (sub_exists name) false (ground (arith, ==_refl name))

  -- The body of the transaction of `ReplicationSlot.Delete`.
  abbrev dropping : Text → Tx → Method D (Unit {0})
  dropping name tx = do
    exists ←
        call (refused (bytes "check slot " ++ (name ++ bytes " before drop")))
          (driver.tx_bool tx (slot_exists name))
    when exists (tx_do driver tx (drop_slot name) (bytes "drop replication slot " ++ name))
    commit_tx driver tx (bytes "commit drop slot " ++ name)

  dropping-gone :
      (c : Conn) (name : Text) (F : Facts) (tx : Tx) (v : World D)
      → IsOpen driver view home pending database false c F tx v.databases
      → (finish (dropping name tx) v).0 ≡ none
      → says (slot_exists name) (view c (finish (dropping name tx) v).1.databases) ≡ some false
  dropping-gone c name F tx v opened h =
      let r = driver.tx_bool tx (slot_exists name) v.databases in
      let u = record v { databases = r.1 } in
      let still =
        tx_ask_lem driver view home pending database false c F tx (slot_exists name) v.databases
          opened in
      elim (Answer-cases r.0) [
        | inr (x, failed) ↦ absurd (ground arith)
        | inl (there, asked) ↦
            let answers : there ≡ F.slots name =
              database.tx_asks tx (slot_exists name) v.databases there (F.slots name) asked
                (ap (λ G. says (slot_exists name) G) opened.sees) in
            elim (Bool-cases there) [
              | inl found ↦
                  let cw = bytes "commit drop slot " ++ name in
                  let fails = refused (bytes "drop replication slot " ++ name) in
                  let f : Facts → Facts = λ G. record G { slots = put name false G.slots } in
                  let same : finish (change driver tx cw fails (drop_slot name)) u
                      ≡ finish (dropping name tx) v =
                    ground arith in
                  subst (λ p. says (slot_exists name) (view c p.1.databases) ≡ some false) same
                    (change_lem driver view home pending database false c F tx cw fails
                      (drop_slot name) (refused-Spares _ false (drop_slot name)) f refl u still
                      (ground (arith, same)) (slot_exists name) false
                      (ground (arith, ==_refl name)))
              | inr absent ↦
                  let m = driver.commit tx r.1 in
                  elim (Answer-cases m.0) [
                    | inr (x, failed) ↦ absurd (ground arith)
                    | inl (_, committed) ↦
                        let same : F ≡ view c (finish (dropping name tx) v).1.databases =
                          ground
                            (arith, still.at_home, still.sees, database.commits tx r.1 committed) in
                        subst (λ G. says (slot_exists name) G ≡ some false) same (ground arith)
                  ]
            ]
      ]

  delete_slot-gone :
      (r : ReplicationSlot) (w : World D)
      → (delete_slot driver r w).0 ≡ none
      → says
          (slot_exists (ReplicationSlot.slot_name r))
          (view r.conn (delete_slot driver r w).1.databases)
        ≡ some false
  unfolding delete_slot
  delete_slot-gone r w h =
      let name = ReplicationSlot.slot_name r in
      behind_lem driver view home pending database (λ F. says (slot_exists name) F ≡ some false)
        r.conn (bytes "begin delete tx for slot " ++ name) (terminate_walsender name)
        (bytes "terminate walsender for slot " ++ name) refl (dropping name) w h
        (dropping-gone r.conn name (view r.conn w.databases))

  -- The resources whose `Delete` drops what their `Refresh` looks for.
  pub data IsDropped : Body → Type 0 where
    dropped_node : (n : SpockNode) → IsDropped (node n)
    dropped_slot : (r : ReplicationSlot) → IsDropped (slot r)
    dropped_subscription : (s : Subscription) → IsDropped (subscription s)

  -- When `Delete` of a node, a slot or a subscription succeeds and `Refresh` behind it succeeds, the
  -- status of the object says that it does not exist, on databases that do what PostgreSQL and Spock
  -- document.
  pub delete_body-refresh_body :
      (a : Address) (b : Body) (w : World D)
      → IsDropped b
      → (delete_body driver b w).0 ≡ none
      → (refresh_body driver a b (delete_body driver b w).1).0 ≡ none
      → (refresh_body driver a b (delete_body driver b w).1).1.status a ≡ no_status
  unfolding delete_body refresh_body refresh_node refresh_slot
  delete_body-refresh_body a _ w (dropped_node n) h k =
      refresh_by_lem driver view home pending database n.conn (local_node_exists n.node.name)
        (bytes "inspect spock node on " ++ n.node.name) a false (delete_node driver n w).1
        (delete_node-gone n w h) k
  delete_body-refresh_body a _ w (dropped_slot r) h k =
      let name = ReplicationSlot.slot_name r in
      refresh_by_lem driver view home pending database r.conn (slot_exists name)
        (bytes "check replication slot " ++ name) a false (delete_slot driver r w).1
        (delete_slot-gone r w h) k
  delete_body-refresh_body a _ w (dropped_subscription s) h k =
      refresh_subscription-gone driver view home pending database a s
        (delete_subscription driver s w).1 (delete_subscription-gone s w h) k
