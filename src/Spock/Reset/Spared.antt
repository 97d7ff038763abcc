-- ===== src/Spock/Reset/Spared.antt =====
-- `resetNode` (internal/spock/reset.go) stays on its connection.
use pgedge_helm.Base.{Bool, true, false, Option, some, none, ◌++◌}
use pgedge_helm.Base.Text.{Text, bytes, text_key}
use pgedge_helm.Config.{Node}
use pgedge_helm.Resource.{Error, context}
use pgedge_helm.Spock.Types.{Conn}
use pgedge_helm.Spock.World.{
  Driver, Tx, Statement, spock_extension_exists, drop_extension, create_extension,
  terminate_walsenders, drop_spock_slots, drop_spock_origins, node_create_always, World,
}
use pgedge_helm.Spock.Flow.{Flow, goes, returns, Method, ◌>>=◌, ◌>>◌, call, refused}
use pgedge_helm.Spock.Changes.{dsn_of}
use pgedge_helm.Spock.Repset.{RepsetSnapshot, backup_repsets, restore_repsets}
use pgedge_helm.Spock.Reset.{attempt, do_now, under, backup_if, reset_node}
use pgedge_helm.Spock.Flow.Keeps.{Spares, Keeps, bind_keeps, then_keeps, call_keeps, finish_keeps}
use pgedge_helm.Spock.Repset.Spared.{restore_repsets_keeps, backup_repsets_keeps}

module _ {D : Type 0} (driver : Driver D) (c : Conn) (P : D → Type 0) (Inside : Tx → D → Type 0)
    (spares : Spares driver c P Inside) where
  backup_if_keeps : (exists : Bool) (name : Text) → Keeps P (backup_if driver exists c name)
  backup_if_keeps false name w p = p
  backup_if_keeps true name w p =
      go (backup_repsets driver c name w).0 (backup_repsets driver c name w).1
        (backup_repsets_keeps driver c P Inside spares name w p)
    where
      go :
          (f : Flow RepsetSnapshot) (v : World D)
          → P v.databases
          → P
              (elim f as (λ x. Flow (Option RepsetSnapshot) × World D) [
                | goes snap ↦ (goes (some snap), v)
                | returns none ↦ (returns none, v)
                | returns (some e) ↦
                    (returns (some (context (bytes "backup repsets on " ++ name) e)), v)
              ]).1.databases
      go (goes snap) v q = q
      go (returns none) v q = q
      go (returns (some e)) v q = q

  under_keeps :
      (what : Text) (f : World D → Option Error × World D)
      → ((w : World D) → P w.databases → P (f w).1.databases)
      → Keeps P (under driver what f)
  under_keeps what f h w p = go (f w).0 (f w).1 (h w p)
    where
      go :
          (e : Option Error) (v : World D)
          → P v.databases
          → P
              (elim e as (λ x. Flow (Unit {0}) × World D) [
                | none ↦ (goes tt, v)
                | some x ↦ (returns (some (context what x)), v)
              ]).1.databases
      go none v q = q
      go (some e) v q = q

  do_now_keeps : (s : Statement) (what : Text) → Keeps P (do_now driver c s what)
  do_now_keeps s what = call_keeps P (refused what) (driver.exec c s) (spares.exec s)

  attempt_keeps : (s : Statement) → Keeps P (attempt driver c s)
  attempt_keeps s w p = spares.exec s w.databases p

  -- `resetNode` behind the drop, and behind the backup.
  abbrev remake : Node → (db_name pgedge_user : Text) → Option RepsetSnapshot → Method D (Unit {0})
  remake node db_name pgedge_user snap =
      do_now driver c create_extension (bytes "create spock extension on " ++ node.name)
      >> (do_now driver c (node_create_always node.name (dsn_of node.hostname db_name pgedge_user))
            (bytes "create spock node on " ++ node.name)
          >> under driver (bytes "restore repsets on " ++ node.name)
              (restore_repsets driver c node.name snap))

  abbrev rebuild : Node → (db_name pgedge_user : Text) → Option RepsetSnapshot → Method D (Unit {0})
  rebuild node db_name pgedge_user snap =
      do_now driver c drop_extension (bytes "drop spock extension on " ++ node.name)
      >> (attempt driver c terminate_walsenders
          >> (attempt driver c drop_spock_slots
              >> (attempt driver c drop_spock_origins >> remake node db_name pgedge_user snap)))

  remake_keeps :
      (node : Node) (db_name pgedge_user : Text) (snap : Option RepsetSnapshot)
      → Keeps P (remake node db_name pgedge_user snap)
  remake_keeps node db_name pgedge_user snap =
      let make = node_create_always node.name (dsn_of node.hostname db_name pgedge_user) in
      let create : Method D (Unit {0}) =
        do_now driver c make (bytes "create spock node on " ++ node.name) in
      let restore : Method D (Unit {0}) =
        under driver (bytes "restore repsets on " ++ node.name)
          (restore_repsets driver c node.name snap) in
      then_keeps P
        (do_now driver c create_extension (bytes "create spock extension on " ++ node.name))
        (create >> restore) (do_now_keeps create_extension _)
        (then_keeps P create restore (do_now_keeps make _) (
          under_keeps (bytes "restore repsets on " ++ node.name)
            (restore_repsets driver c node.name snap)
            (restore_repsets_keeps driver c P Inside spares node.name snap)))

  rebuild_keeps :
      (node : Node) (db_name pgedge_user : Text) (snap : Option RepsetSnapshot)
      → Keeps P (rebuild node db_name pgedge_user snap)
  rebuild_keeps node db_name pgedge_user snap =
      let made = remake node db_name pgedge_user snap in
      let drop_origins : Method D (Unit {0}) = attempt driver c drop_spock_origins >> made in
      let drop_slots : Method D (Unit {0}) = attempt driver c drop_spock_slots >> drop_origins in
      then_keeps P (do_now driver c drop_extension (bytes "drop spock extension on " ++ node.name))
        (attempt driver c terminate_walsenders >> drop_slots) (do_now_keeps drop_extension _)
        (then_keeps P (attempt driver c terminate_walsenders) drop_slots
          (attempt_keeps terminate_walsenders)
          (then_keeps P (attempt driver c drop_spock_slots) drop_origins
            (attempt_keeps drop_spock_slots)
            (then_keeps P (attempt driver c drop_spock_origins) made
              (attempt_keeps drop_spock_origins) (remake_keeps node db_name pgedge_user snap))))

  -- A reset of the node behind the connection leaves it as it is too, failed or not.
  pub reset_node-Spares :
      (node : Node) (db_name pgedge_user : Text) (w : World D)
      → P w.databases
      → P (reset_node driver c node db_name pgedge_user w).1.databases
  unfolding reset_node
  reset_node-Spares node db_name pgedge_user w p =
      let check : Method D Bool =
        call (refused (bytes "check spock extension on " ++ node.name))
          (driver.query_bool c spock_extension_exists) in
      let restoring : Bool → Method D (Unit {0}) =
        λ exists. backup_if driver exists c node.name >>= rebuild node db_name pgedge_user in
      finish_keeps P (check >>= restoring) w (
        bind_keeps P check restoring
          (call_keeps P _ (driver.query_bool c spock_extension_exists)
            (spares.query_bool spock_extension_exists))
          (λ exists.
            bind_keeps P (backup_if driver exists c node.name) (rebuild node db_name pgedge_user)
              (backup_if_keeps exists node.name) (rebuild_keeps node db_name pgedge_user))
          w p)
