-- ===== src/Spock/Refresh/Frame.antt =====
-- `discoverOrphans` (internal/spock/refresh.go): what its loops leave as it is.
use pgedge_helm.Base.{◌≡◌, refl, ◌∙◌, List, [], ◌∷◌, map, Option, none, some}
use pgedge_helm.Base.Text.{Text}
use pgedge_helm.Base.Maps.{lookup}
use pgedge_helm.Config.{Node, Config}
use pgedge_helm.Resource.{Identifier, identifier_key}
use pgedge_helm.Spock.Types.{Conn}
use pgedge_helm.Spock.Desired.{Conns, conn_of}
use pgedge_helm.Spock.World.{Driver, World, Answer, answer, failure, nodes_outside, spock_slots}
use pgedge_helm.Spock.Refresh.{
  Actual, add_orphan_node, add_orphan_nodes, discover_orphan_nodes, add_orphan_slot,
  add_orphan_slots, discover_orphan_slots, expected_slots, discover_from, discover_orphans,
}

-- The entry of an identifier is the same.
abbrev pub Same : {D : Type 0} → Identifier → (before after : Actual × World D) → Type 0
Same k before after = lookup k after.0 ≡ lookup k before.0

-- An identifier whose entry neither an orphan slot nor an orphan node replaces.
module _ {D : Type 0} (driver : Driver D) (cfg : Config) (k : Identifier)
    (slot_step : (c : Conn) (survivor : Node) (other : Text) (st : Actual × World D)
      → Same k st
          (add_orphan_slot driver cfg c survivor (expected_slots driver cfg cfg.nodes) other st))
    (node_step : (c : Conn) (survivor : Node) (orphan : Text) (st : Actual × World D)
      → Same k st (add_orphan_node driver cfg c survivor orphan st)) where
  abbrev expected : List Text
  expected = expected_slots driver cfg cfg.nodes

  add_orphan_slots-Same :
      (c : Conn) (survivor : Node) (rows : List (Option Text)) (st : Actual × World D)
      → Same k st (add_orphan_slots driver cfg c survivor expected rows st)
  unfolding add_orphan_slots
  add_orphan_slots-Same c survivor [] st = refl
  add_orphan_slots-Same c survivor (none ∷ rows) st = add_orphan_slots-Same c survivor rows st
  add_orphan_slots-Same c survivor (some other ∷ rows) st =
      add_orphan_slots-Same c survivor rows
        (add_orphan_slot driver cfg c survivor expected other st)
      ∙ slot_step c survivor other st

  add_orphan_nodes-Same :
      (c : Conn) (survivor : Node) (rows : List (Option Text)) (st : Actual × World D)
      → Same k st (add_orphan_nodes driver cfg c survivor rows st)
  unfolding add_orphan_nodes
  add_orphan_nodes-Same c survivor [] st = refl
  add_orphan_nodes-Same c survivor (none ∷ rows) st = add_orphan_nodes-Same c survivor rows st
  add_orphan_nodes-Same c survivor (some orphan ∷ rows) st =
      add_orphan_nodes-Same c survivor rows (add_orphan_node driver cfg c survivor orphan st)
      ∙ node_step c survivor orphan st

  discover_orphan_nodes-Same :
      (c : Conn) (survivor : Node) (config_names : List Text) (st : Actual × World D)
      → Same k st (discover_orphan_nodes driver cfg c survivor config_names st)
  unfolding discover_orphan_nodes
  discover_orphan_nodes-Same c survivor config_names (actual, w) =
      let (result, d) = driver.query_rows c (nodes_outside config_names) w.databases in
      step result (record w { databases = d })
    where
      step :
          (result : Answer (List (Option Text))) (v : World D)
          → (let r : Actual × World D = elim result [
            | failure e ↦ (actual, v)
            | answer rows ↦ add_orphan_nodes driver cfg c survivor rows (actual, v)
          ] in
              lookup k r.0 ≡ lookup k actual)
      step (failure e) v = refl
      step (answer rows) v = add_orphan_nodes-Same c survivor rows (actual, v)

  discover_orphan_slots-Same :
      (c : Conn) (survivor : Node) (st : Actual × World D)
      → Same k st (discover_orphan_slots driver cfg c survivor expected st)
  unfolding discover_orphan_slots
  discover_orphan_slots-Same c survivor (actual, w) =
      let (result, d) = driver.query_rows c spock_slots w.databases in
      step result (record w { databases = d })
    where
      step :
          (result : Answer (List (Option Text))) (v : World D)
          → (let r : Actual × World D = elim result [
            | failure e ↦ (actual, v)
            | answer rows ↦ add_orphan_slots driver cfg c survivor expected rows (actual, v)
          ] in
              lookup k r.0 ≡ lookup k actual)
      step (failure e) v = refl
      step (answer rows) v = add_orphan_slots-Same c survivor rows (actual, v)

  discover_from-Same :
      (conns : Conns) (ns : List Node) (st : Actual × World D)
      → Same k st (discover_from driver cfg conns ns st)
  unfolding discover_from
  discover_from-Same conns [] st = refl
  discover_from-Same conns (n ∷ ns) st =
      let c = conn_of conns n.name in
      let names = map (λ x. x.name) cfg.nodes in
      let st1 = discover_orphan_nodes driver cfg c n names st in
      discover_from-Same conns ns (discover_orphan_slots driver cfg c n expected st1)
      ∙ discover_orphan_slots-Same c n st1
      ∙ discover_orphan_nodes-Same c n names st

  pub discover_orphans-Same :
      (conns : Conns) (st : Actual × World D) → Same k st (discover_orphans driver cfg conns st)
  unfolding discover_orphans
  discover_orphans-Same conns st = discover_from-Same conns cfg.nodes st
