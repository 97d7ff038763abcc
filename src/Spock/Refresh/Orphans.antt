-- ===== src/Spock/Refresh/Orphans.antt =====
-- `discoverOrphans` (internal/spock/refresh.go): what is configured is never taken for an orphan.
use pgedge_helm.Base.{suc, ◌≡◌, refl, ◌++◌, ◌∙◌, true, false, List, [], ◌∷◌, elem, arith}
use pgedge_helm.Base.Text.{Text, bytes, text_key, text_eq, has_byte}
use pgedge_helm.Base.Maps.{lookup, insert, lookup-insert}
use pgedge_helm.Config.{Node, Config}
use pgedge_helm.Resource.{Identifier, identifier_key, identifier_eq, identifier_eq_iff}
use pgedge_helm.Spock.Types.{
  Conn, ident, resource_type_node, resource_type_replication_slot, resource_type_subscription,
}
use pgedge_helm.Spock.Desired.{Conns}
use pgedge_helm.Spock.World.{Driver, World}
use pgedge_helm.Spock.Refresh.{
  Actual, add_orphan_node, orphan_slot, orphan_config, add_orphan_slot, expected_slots,
  discover_orphans,
}
use pgedge_helm.Spock.Object.{Object, body_identifier, subscription, node}
use pgedge_helm.Spock.Subscription
use pgedge_helm.Spock.Subscription.{new_subscription}
use pgedge_helm.Spock.SpockNode.{new_spock_node}
use pgedge_helm.Spock.Refresh.Frame.{Same, discover_orphans-Same}

insert_apart :
    (k id : Identifier) (o : Object) (m : Actual)
    → identifier_eq k id ≡ false
    → lookup k (insert id o m) ≡ lookup k m
insert_apart k id o m h = ground (arith, lookup-insert k id o m)

insert_other :
    (k : Identifier) (type id : Text) (o : Object) (m : Actual)
    → text_eq k.type type ≡ false
    → lookup k (insert (ident type id) o m) ≡ lookup k m
unfolding identifier_eq
insert_other k type id o m h = insert_apart k (ident type id) o m (ground arith)

module _ {D : Type 0} (driver : Driver D) (cfg : Config) (name : Text) where
  abbrev slot_id : Identifier
  slot_id = ident resource_type_replication_slot name

  add_orphan_slot-Same :
      (c : Conn) (survivor : Node) (expected : List Text) (other : Text) (st : Actual × World D)
      → elem name expected ≡ true
      → Same slot_id st (add_orphan_slot driver cfg c survivor expected other st)
  unfolding add_orphan_slot
  add_orphan_slot-Same c survivor expected other (actual, w) h = ground (
    arith,
    identifier_eq_iff slot_id (ident resource_type_replication_slot other),
    lookup-insert slot_id (ident resource_type_replication_slot other)
        (record { address = w.next; body = orphan_slot cfg c survivor other }) actual,
  )

  add_orphan_node-Same :
      (c : Conn) (survivor : Node) (orphan : Text) (st : Actual × World D)
      → Same slot_id st (add_orphan_node driver cfg c survivor orphan st)
  unfolding add_orphan_node body_identifier Subscription.identifier text_eq
  add_orphan_node-Same c survivor orphan (actual, w) =
      insert_other slot_id resource_type_subscription _ _ _ refl
      ∙ insert_other slot_id resource_type_node _ _ _ refl

  -- For the slot of a pair of nodes of the configuration, `discoverOrphans` leaves the entry of the
  -- actual map, present or missing, as the refresh of the desired resources left it: it never takes
  -- the slot for an orphan, whatever the databases answer.
  pub discover_orphans-lookup :
      (conns : Conns) (st : Actual × World D)
      → elem name (expected_slots driver cfg cfg.nodes) ≡ true
      → lookup slot_id (discover_orphans driver cfg conns st).0 ≡ lookup slot_id st.0
  discover_orphans-lookup conns st h =
      discover_orphans-Same driver cfg slot_id
        (λ c survivor other s.
          add_orphan_slot-Same c survivor (expected_slots driver cfg cfg.nodes) other s h)
        add_orphan_node-Same conns st

-- The key of an orphan at a survivor is no name without the separator.
at-survivor :
    (name orphan survivor : Text)
    → has_byte b'@' name ≡ false
    → text_eq name (orphan ++ (bytes "@" ++ survivor)) ≡ false
unfolding text_eq
at-survivor [] [] survivor h = refl
at-survivor [] (_ ∷ _) survivor h = refl
at-survivor (x ∷ name) [] survivor h = ground arith
at-survivor (x ∷ name) (y ∷ orphan) survivor h = ground (arith, at-survivor name orphan survivor)

module _ {D : Type 0} (driver : Driver D) (cfg : Config) (name : Text) where
  abbrev node_id : Identifier
  node_id = ident resource_type_node name

  add_slot-Same :
      (c : Conn) (survivor : Node) (expected : List Text) (other : Text) (st : Actual × World D)
      → Same node_id st (add_orphan_slot driver cfg c survivor expected other st)
  unfolding add_orphan_slot text_eq
  add_slot-Same c survivor expected other (actual, w) =
      let kept =
        insert_other node_id resource_type_replication_slot other
          (record { address = w.next; body = orphan_slot cfg c survivor other }) actual refl in
      ground (arith, kept)

  add_node-Same :
      (c : Conn) (survivor : Node) (orphan : Text) (st : Actual × World D)
      → has_byte b'@' name ≡ false
      → Same node_id st (add_orphan_node driver cfg c survivor orphan st)
  unfolding add_orphan_node body_identifier Subscription.identifier text_eq identifier_eq
  add_node-Same c survivor orphan (actual, w) h =
      let sub =
        subscription (
          new_subscription (orphan_config orphan) survivor cfg.db_name cfg.pgedge_user false c
            []) in
      let member = node (new_spock_node (orphan_config orphan) cfg.db_name cfg.pgedge_user c) in
      let key = ident resource_type_node (orphan ++ (bytes "@" ++ survivor.name)) in
      let kept : Object = record { address = w.next; body = member } in
      let its_sub : Object = record { address = suc w.next; body = sub } in
      insert_other node_id resource_type_subscription (body_identifier sub).id its_sub
        (insert key kept actual) refl
      ∙ insert_apart node_id key kept actual (at-survivor name orphan survivor.name h)

  -- For a node whose name has no `@`, `discoverOrphans` leaves the entry of the actual map, present
  -- or missing, as the refresh of the desired resources left it, whatever the databases answer: the
  -- entries of the orphan nodes, one for each survivor, stand at other identifiers.
  pub discover_orphans-lookup_node :
      (conns : Conns) (st : Actual × World D)
      → has_byte b'@' name ≡ false
      → lookup node_id (discover_orphans driver cfg conns st).0 ≡ lookup node_id st.0
  discover_orphans-lookup_node conns st h =
      discover_orphans-Same driver cfg node_id
        (λ c survivor. add_slot-Same c survivor (expected_slots driver cfg cfg.nodes))
        (λ c survivor orphan s. add_node-Same c survivor orphan s h) conns st
