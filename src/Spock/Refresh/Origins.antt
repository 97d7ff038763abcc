-- ===== src/Spock/Refresh/Origins.antt =====
-- `RefreshActual` (internal/spock/refresh.go): where the resources of the actual map come from.
use pgedge_helm.Base.{
  false, List, [], ◌∷◌, map, Option, none, some, elem, All, if_ind, if◌then◌else◌,
}
use pgedge_helm.Base.Text.{Text, text_key}
use pgedge_helm.Base.Maps.{Map, insert, contains}
use pgedge_helm.Config.{Node, Config}
use pgedge_helm.Resource.{Identifier, identifier_key, Error, refresh_failed}
use pgedge_helm.Spock.Types.{Conn, ident, resource_type_replication_slot}
use pgedge_helm.Spock.SpockNode.{new_spock_node}
use pgedge_helm.Spock.Subscription.{new_subscription}
use pgedge_helm.Spock.Object.{Body, node, subscription, Object}
use pgedge_helm.Spock.Desired.{Conns, conn_of}
use pgedge_helm.Spock.Desired.Filling.{insert-All}
use pgedge_helm.Spock.World.{Driver, World, Answer, answer, failure, nodes_outside, spock_slots}
use pgedge_helm.Spock.Methods.{refresh_body}
use pgedge_helm.Spock.Refresh.{
  Actual, refresh_desired, found, orphan_config, orphan_slot, add_orphan_node, add_orphan_nodes,
  discover_orphan_nodes, add_orphan_slot, add_orphan_slots, discover_orphan_slots, expected_slots,
  discover_from, discover_orphans, check_slot_health, refresh_actual,
}

-- A property of bodies that the orphans have that the discovery may make up.
pub record HoldsOfOrphans (P : Body → Type 0) (cfg : Config) : Type 0 where
  pub of_node :
      (name : Text) (c : Conn)
      → P (node (new_spock_node (orphan_config name) cfg.db_name cfg.pgedge_user c))
  pub of_subscription :
      (name : Text) (survivor : Node) (c : Conn)
      → P (
          subscription
            (new_subscription (orphan_config name) survivor cfg.db_name cfg.pgedge_user false c []))
  pub of_slot : (c : Conn) (survivor : Node) (name : Text) → P (orphan_slot cfg c survivor name)

module _ {D : Type 0} (driver : Driver D) (P : Body → Type 0) where
  abbrev Each : Actual → Type 0
  Each = All (λ e. P e.1.body)

  insert-Each :
      (id : Identifier) (o : Object) (m : Actual) → P o.body → Each m → Each (insert id o m)
  insert-Each id o m = insert-All (λ p. P p.body) id o m

  refresh_desired-Each :
      (m : Map Identifier Object) (actual : Actual) (w : World D)
      → Each m
      → Each actual
      → Each (refresh_desired driver m actual w).1
  unfolding refresh_desired
  refresh_desired-Each [] actual w h k = k
  refresh_desired-Each ((id, o) ∷ m) actual w h k =
      let v = (refresh_body driver o.address o.body w).1 in
      let joined : Actual = if (v.status o.address).exists then insert id o actual else actual in
      step (refresh_body driver o.address o.body w).0 v (refresh_desired driver m joined v) (
        refresh_desired-Each m joined v h.1
          (if_ind Each (v.status o.address).exists (insert-Each id o actual h.0 k) k))
    where
      step :
          (result : Option Error) (v : World D) (rest : Option Error × Actual × World D)
          → Each rest.1
          → (let r : Option Error × Actual × World D = elim result [
            | none ↦ rest
            | some e ↦ (some (refresh_failed id e), actual, v)
          ] in
              Each r.1)
      step none v rest low = low
      step (some e) v rest low = k

  module _ (cfg : Config) (conns : Conns) (orphans : HoldsOfOrphans P cfg) where
    found-Each :
        (id : Identifier) (body : Body) (st : Actual × World D)
        → P body
        → Each st.0
        → Each (found driver id body st).0
    found-Each id body (actual, w) p h =
        insert-Each id (record { address = w.next; body = body }) actual p h

    add_orphan_nodes-Each :
        (c : Conn) (survivor : Node) (rows : List (Option Text)) (st : Actual × World D)
        → Each st.0
        → Each (add_orphan_nodes driver cfg c survivor rows st).0
    unfolding add_orphan_nodes add_orphan_node
    add_orphan_nodes-Each c survivor [] st h = h
    add_orphan_nodes-Each c survivor (none ∷ rows) st h = add_orphan_nodes-Each c survivor rows st h
    add_orphan_nodes-Each c survivor (some name ∷ rows) st h =
        add_orphan_nodes-Each c survivor rows (add_orphan_node driver cfg c survivor name st) (
          insert-Each _ _ _ (orphans.of_subscription name survivor c)
            (insert-Each _ _ st.0 (orphans.of_node name c) h))

    discover_orphan_nodes-Each :
        (c : Conn) (survivor : Node) (config_names : List Text) (st : Actual × World D)
        → Each st.0
        → Each (discover_orphan_nodes driver cfg c survivor config_names st).0
    unfolding discover_orphan_nodes
    discover_orphan_nodes-Each c survivor config_names (actual, w) h =
        step (driver.query_rows c (nodes_outside config_names) w.databases).0 (record w {
          databases = (driver.query_rows c (nodes_outside config_names) w.databases).1;
        })
      where
        step :
            (result : Answer (List (Option Text))) (v : World D)
            → (let r : Actual × World D = elim result [
              | failure e ↦ (actual, v)
              | answer rows ↦ add_orphan_nodes driver cfg c survivor rows (actual, v)
            ] in
                Each r.0)
        step (failure e) v = h
        step (answer rows) v = add_orphan_nodes-Each c survivor rows (actual, v) h

    add_orphan_slots-Each :
        (c : Conn) (survivor : Node) (expected : List Text) (rows : List (Option Text))
        (st : Actual × World D)
        → Each st.0
        → Each (add_orphan_slots driver cfg c survivor expected rows st).0
    unfolding add_orphan_slots add_orphan_slot
    add_orphan_slots-Each c survivor expected [] st h = h
    add_orphan_slots-Each c survivor expected (none ∷ rows) st h =
        add_orphan_slots-Each c survivor expected rows st h
    add_orphan_slots-Each c survivor expected (some name ∷ rows) st h =
        add_orphan_slots-Each c survivor expected rows
          (add_orphan_slot driver cfg c survivor expected name st)
          (if_ind {A = Actual × World D} (λ x. Each x.0) (elem name expected) h
            (if_ind {A = Actual × World D} (λ x. Each x.0)
              (contains (ident resource_type_replication_slot name) st.0) h
              (found-Each _ _ st (orphans.of_slot c survivor name) h)))

    discover_orphan_slots-Each :
        (c : Conn) (survivor : Node) (expected : List Text) (st : Actual × World D)
        → Each st.0
        → Each (discover_orphan_slots driver cfg c survivor expected st).0
    unfolding discover_orphan_slots
    discover_orphan_slots-Each c survivor expected (actual, w) h =
        step (driver.query_rows c spock_slots w.databases).0
          (record w { databases = (driver.query_rows c spock_slots w.databases).1 })
      where
        step :
            (result : Answer (List (Option Text))) (v : World D)
            → (let r : Actual × World D = elim result [
              | failure e ↦ (actual, v)
              | answer rows ↦ add_orphan_slots driver cfg c survivor expected rows (actual, v)
            ] in
                Each r.0)
        step (failure e) v = h
        step (answer rows) v = add_orphan_slots-Each c survivor expected rows (actual, v) h

    discover_from-Each :
        (ns : List Node) (st : Actual × World D)
        → Each st.0
        → Each (discover_from driver cfg conns ns st).0
    unfolding discover_from
    discover_from-Each [] st h = h
    discover_from-Each (n ∷ ns) st h = discover_from-Each ns _ (
        discover_orphan_slots-Each (conn_of conns n.name) n (expected_slots driver cfg cfg.nodes) _
          (discover_orphan_nodes-Each (conn_of conns n.name) n (map (λ x. x.name) cfg.nodes) st h))

    -- What holds of every desired resource and of every orphan holds of every resource that
    -- `RefreshActual` returns.
    pub refresh_actual-All :
        (desired : Map Identifier Object) (w : World D)
        → All (λ e. P e.1.body) desired
        → All (λ e. P e.1.body) (refresh_actual driver cfg conns desired w).1
    unfolding refresh_actual discover_orphans
    refresh_actual-All desired w h =
        let r = refresh_desired driver desired [] w in
        let st = discover_from driver cfg conns cfg.nodes (r.1, r.2) in
        step r.0 r.2 (check_slot_health driver st.0 st.1) st.0
          (discover_from-Each cfg.nodes (r.1, r.2) (refresh_desired-Each desired [] w h tt))
      where
        step :
            (result : Option Error) (w1 w2 : World D) (all : Actual)
            → Each all
            → (let r : Option Error × Actual × World D = elim result [
              | some e ↦ (some e, [], w1)
              | none ↦ (none, all, w2)
            ] in
                Each r.1)
        step none w1 w2 all low = low
        step (some e) w1 w2 all low = tt
