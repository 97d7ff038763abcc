-- ===== src/Spock/Refresh.antt =====
-- internal/spock/refresh.go: `RefreshActual`, `checkSlotHealth` and `discoverOrphans`.
pub mod SlotHealth
pub mod Persistent
pub mod Origins
pub mod Frame
pub mod Orphans
use pgedge_helm.Base.{
  ℕ, suc, Bool, true, false, not, List, [], ◌∷◌, ◌++◌, map, Option, none, some, if◌then◌else◌, ◌==◌,
  elem,
}
use pgedge_helm.Base.Text.{Text, bytes, text_key, text_eq}
use pgedge_helm.Base.Maps.{Map, lookup, insert, contains}
use pgedge_helm.Config.{Node, Config}
use pgedge_helm.Resource.{Identifier, identifier_key, identifier_eq, Status, Error, refresh_failed}
use pgedge_helm.Spock.Names.{pair_id}
use pgedge_helm.Spock.Types.{
  Conn, Address, ident, resource_type_node, resource_type_replication_slot,
  resource_type_subscription,
}
use pgedge_helm.Spock.SpockNode.{new_spock_node}
use pgedge_helm.Spock.ReplicationSlot
use pgedge_helm.Spock.ReplicationSlot.{ReplicationSlot, new_replication_slot}
use pgedge_helm.Spock.Subscription
use pgedge_helm.Spock.Subscription.{Subscription, new_subscription}
use pgedge_helm.Spock.Object.{Body, node, slot, subscription, Object, body_identifier}
use pgedge_helm.Spock.Desired.{Conns, conn_of}
use pgedge_helm.Spock.World.{
  Answer, answer, failure, Driver, nodes_outside, spock_slots, World, no_status, set_status,
}
use pgedge_helm.Spock.Methods.{with_status, existing, refresh_body}

abbrev pub Actual : Type 0
Actual = Map Identifier Object

abbrev pub lost_status : Status
lost_status = record {
  exists = true;
  needs_recreate = true;
  needs_update = false;
  reason = bytes "provider-side replication slot missing";
}

-- The subscription behind an entry of the map, where `checkSlotHealth` looks at it.
unfoldable pub subscription_of : Identifier → Object → Option Subscription
unfolding text_eq
subscription_of id o =
    if id.type == resource_type_subscription
    then elim o.body [ subscription s ↦ some s | _ ↦ none ]
    else none

unfoldable pub slot_missing : Actual → Identifier → Object → Bool
slot_missing actual id o = elim (subscription_of id o) [
  | none ↦ false
  | some s ↦ not (
      contains (ident resource_type_replication_slot (Subscription.replication_slot_name s)) actual)
]

abbrev pub orphan_config : Text → Node
orphan_config name = record {
  name = name;
  hostname = bytes "";
  internal_hostname = bytes "";
  bootstrap = record { mode = bytes ""; source_node = bytes "" };
}

abbrev pub orphan_slot : Config → Conn → Node → Text → Body
orphan_slot cfg c survivor name = slot (record {
  provider_name = survivor.name;
  subscriber_name = bytes "";
  db_name = cfg.db_name;
  name_override = name;
  conn = c;
})

module _ {D : Type 0} (driver : Driver D) where
  -- The loop of `checkSlotHealth` over the entries of `actual`.
  unfoldable pub check_entries : Actual → Actual → World D → World D
  check_entries actual [] w = w
  check_entries actual ((id, o) ∷ m) w =
      check_entries actual m
        (if slot_missing actual id o then with_status driver o.address lost_status w else w)

  unfoldable pub check_slot_health : Actual → World D → World D
  check_slot_health actual w = check_entries actual actual w

  -- The loop of `RefreshActual` over `desired`.
  unfoldable pub refresh_desired :
      Map Identifier Object → Actual → World D → Option Error × Actual × World D
  refresh_desired [] actual w = (none, actual, w)
  refresh_desired ((id, o) ∷ m) actual w =
      let (result, w') = refresh_body driver o.address o.body w in
      let rest =
        refresh_desired m (if (w'.status o.address).exists then insert id o actual else actual)
          w' in
      elim result [ none ↦ rest | some e ↦ (some (refresh_failed id e), actual, w') ]

  -- A new object whose status says that it exists.
  abbrev pub found : Identifier → Body → Actual × World D → Actual × World D
  found id body (actual, w) = (
    insert id (record { address = w.next; body = body }) actual,
    record w { next = suc w.next; status = set_status w.next (existing driver true) w.status },
  )

  -- The body of the loop of `discoverOrphanNodes`: a node, and its subscription at the survivor.
  pub add_orphan_node : Config → Conn → Node → Text → Actual × World D → Actual × World D
  add_orphan_node cfg c survivor orphan st =
      let sub =
        subscription (
          new_subscription (orphan_config orphan) survivor cfg.db_name cfg.pgedge_user false c
            []) in
      found (body_identifier sub) sub (
        found (ident resource_type_node (orphan ++ (bytes "@" ++ survivor.name)))
          (node (new_spock_node (orphan_config orphan) cfg.db_name cfg.pgedge_user c)) st)

  unfoldable pub add_orphan_nodes :
      Config → Conn → Node → List (Option Text) → Actual × World D → Actual × World D
  add_orphan_nodes cfg c survivor [] st = st
  add_orphan_nodes cfg c survivor (row ∷ rows) st =
      add_orphan_nodes cfg c survivor rows
        (elim row [ none ↦ st | some orphan ↦ add_orphan_node cfg c survivor orphan st ])

  unfoldable pub discover_orphan_nodes :
      Config → Conn → Node → List Text → Actual × World D → Actual × World D
  discover_orphan_nodes cfg c survivor config_names (actual, w) =
      let (result, d) = driver.query_rows c (nodes_outside config_names) w.databases in
      let w' = record w { databases = d } in
      elim result [
        | failure e ↦ (actual, w')
        | answer rows ↦ add_orphan_nodes cfg c survivor rows (actual, w')
      ]

  -- The body of the loop of `discoverOrphanSlots`.
  pub add_orphan_slot :
      Config → Conn → Node → List Text → Text → Actual × World D → Actual × World D
  add_orphan_slot cfg c survivor expected name st =
      let id = ident resource_type_replication_slot name in
      if elem name expected
      then st
      else if contains id st.0
      then st
      else found id (orphan_slot cfg c survivor name) st

  unfoldable pub add_orphan_slots :
      Config → Conn → Node → List Text → List (Option Text) → Actual × World D → Actual × World D
  add_orphan_slots cfg c survivor expected [] st = st
  add_orphan_slots cfg c survivor expected (row ∷ rows) st =
      add_orphan_slots cfg c survivor expected rows
        (elim row [ none ↦ st | some name ↦ add_orphan_slot cfg c survivor expected name st ])

  unfoldable pub discover_orphan_slots :
      Config → Conn → Node → List Text → Actual × World D → Actual × World D
  discover_orphan_slots cfg c survivor expected (actual, w) =
      let (result, d) = driver.query_rows c spock_slots w.databases in
      let w' = record w { databases = d } in
      elim result [
        | failure e ↦ (actual, w')
        | answer rows ↦ add_orphan_slots cfg c survivor expected rows (actual, w')
      ]

  -- `expectedSlots`: the slots of every pair of nodes.
  expected_from : Config → Node → List Node → List Text
  expected_from cfg src [] = []
  expected_from cfg src (dst ∷ dsts) =
      (if src.name == dst.name
        then []
        else ReplicationSlot.slot_name (new_replication_slot src.name dst.name cfg.db_name none)
          ∷ [])
      ++ expected_from cfg src dsts

  unfoldable pub expected_slots : Config → List Node → List Text
  unfolding expected_from
  expected_slots cfg [] = []
  expected_slots cfg (src ∷ srcs) = expected_from cfg src cfg.nodes ++ expected_slots cfg srcs

  pub discover_from : Config → Conns → List Node → Actual × World D → Actual × World D
  discover_from cfg conns [] st = st
  discover_from cfg conns (n ∷ ns) st =
      let c = conn_of conns n.name in
      discover_from cfg conns ns (
        discover_orphan_slots cfg c n (expected_slots cfg cfg.nodes)
          (discover_orphan_nodes cfg c n (map (λ x. x.name) cfg.nodes) st))

  unfoldable pub discover_orphans : Config → Conns → Actual × World D → Actual × World D
  unfolding discover_from
  discover_orphans cfg conns = discover_from cfg conns cfg.nodes

  -- The actual map, which is nil beside an error.
  unfoldable pub refresh_actual :
      Config → Conns → Map Identifier Object → World D → Option Error × Actual × World D
  refresh_actual cfg conns desired w =
      let (result, actual, w1) = refresh_desired desired [] w in
      let (all, w2) = discover_orphans cfg conns (actual, w1) in
      elim result [ some e ↦ (some e, [], w1) | none ↦ (none, all, check_slot_health all w2) ]
