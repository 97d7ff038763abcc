-- ===== src/Spock/Reset.antt =====
-- internal/spock/reset.go: Spock dropped and made anew on a node.
pub mod Spared
pub mod Selected
pub mod Restores
mod Tests
use pgedge_helm.Base.{
  Bool, true, false, ◌++◌, List, [], ◌∷◌, Option, none, some, if◌then◌else◌, ◌==◌,
}
use pgedge_helm.Base.Text.{Text, bytes, text_key, text_eq}
use pgedge_helm.Config.{Node, Config}
use pgedge_helm.Resource.{Error, context}
use pgedge_helm.Spock.Types.{Conn}
use pgedge_helm.Spock.Desired.{Conns, conn_of}
use pgedge_helm.Spock.World.{
  Driver, Statement, spock_extension_exists, drop_extension, create_extension, terminate_walsenders,
  drop_spock_slots, drop_spock_origins, node_create_always, World,
}
use pgedge_helm.Spock.Flow.{Flow, goes, returns, Method, ◌>>=◌, ◌>>◌, call, refused, finish}
use pgedge_helm.Spock.Changes.{dsn_of}
use pgedge_helm.Spock.Repset.{RepsetSnapshot, backup_repsets, restore_repsets}

module _ {D : Type 0} (driver : Driver D) where
  -- A statement whose failure is only logged.
  abbrev pub attempt : Conn → Statement → Method D (Unit {0})
  attempt c s w = (goes tt, record w { databases = (driver.exec c s w.databases).1 })

  abbrev pub do_now : Conn → Statement → Text → Method D (Unit {0})
  do_now c s what = call (refused what) (driver.exec c s)

  -- `return fmt.Errorf("...: %w", err)` about what another function returned.
  abbrev pub under : Text → (World D → Option Error × World D) → Method D (Unit {0})
  under what f w =
      let (result, v) = f w in
      elim result [ none ↦ (goes tt, v) | some e ↦ (returns (some (context what e)), v) ]

  abbrev pub backup_if : Bool → Conn → Text → Method D (Option RepsetSnapshot)
  backup_if false c name w = (goes none, w)
  backup_if true c name w =
      let (flow, v) = backup_repsets driver c name w in
      elim flow [
        | goes snap ↦ (goes (some snap), v)
        | returns none ↦ (returns none, v)
        | returns (some e) ↦ (returns (some (context (bytes "backup repsets on " ++ name) e)), v)
      ]

  unfoldable pub reset_node :
      Conn → Node → (db_name pgedge_user : Text) → World D → Option Error × World D
  reset_node c node db_name pgedge_user = finish (do
    spock_exists ←
        call (refused (bytes "check spock extension on " ++ node.name))
          (driver.query_bool c spock_extension_exists)
    snap ← backup_if spock_exists c node.name
    do_now c drop_extension (bytes "drop spock extension on " ++ node.name)
    attempt c terminate_walsenders
    attempt c drop_spock_slots
    attempt c drop_spock_origins
    do_now c create_extension (bytes "create spock extension on " ++ node.name)
    do_now c (node_create_always node.name (dsn_of node.hostname db_name pgedge_user))
        (bytes "create spock node on " ++ node.name)
    under (bytes "restore repsets on " ++ node.name) (restore_repsets driver c node.name snap))

  -- The loop over nodes, up to the first failure.
  unfoldable pub reset_each : Config → Conns → Text → List Node → World D → Option Error × World D
  reset_each cfg conns what [] w = (none, w)
  reset_each cfg conns what (n ∷ ns) w =
      let (result, v) = reset_node (conn_of conns n.name) n cfg.db_name cfg.pgedge_user w in
      let rest = reset_each cfg conns what ns v in
      elim result [ none ↦ rest | some e ↦ (some (context (what ++ n.name) e), v) ]

  unfoldable pub reset_spock : Config → Conns → World D → Option Error × World D
  reset_spock cfg conns = reset_each cfg conns (bytes "reset spock on ") cfg.nodes

  abbrev pub is_restored : Node → Bool
  is_restored n = n.bootstrap.mode == bytes "cnpg"

  unfoldable pub reset_restored : Config → Conns → List Node → World D → Option Error × World D
  reset_restored cfg conns [] w = (none, w)
  reset_restored cfg conns (n ∷ ns) w =
      if is_restored n
      then (let (result, v) = reset_node (conn_of conns n.name) n cfg.db_name cfg.pgedge_user w in
          elim result [
            | none ↦ reset_restored cfg conns ns v
            | some e ↦ (some (context (bytes "reset bootstrapped node " ++ n.name) e), v)
          ])
      else reset_restored cfg conns ns w

  unfoldable pub reset_bootstrapped_nodes : Config → Conns → World D → Option Error × World D
  unfolding reset_restored
  reset_bootstrapped_nodes cfg conns = reset_restored cfg conns cfg.nodes
