-- ===== src/Spock/Repset.antt =====
-- internal/spock/repset.go: the replication sets of a node, saved and restored.
pub mod Restored
pub mod Saved
pub mod Spared
use pgedge_helm.Base.{
  Bool, true, false, ◌||◌, ◌&&◌, ◌++◌, List, [], ◌∷◌, Option, none, some, if◌then◌else◌, ◌==◌,
}
use pgedge_helm.Base.Text.{Text, bytes, text_key, text_eq}
use pgedge_helm.Resource.{Error}
use pgedge_helm.Spock.Types.{Conn}
use pgedge_helm.Spock.World.{
  DriverError, Answer, answer, failure, Driver, Tx, Rows, ReplicationSet, ReplicationSetTable,
  repset_create, repset_add_table, World,
}
use pgedge_helm.Spock.Flow.{
  Flow, goes, returns, Method, ◌>>=◌, ◌>>◌, call, refused, finish, in_tx, tx_do, commit_tx,
}

pub record RepsetSnapshot : Type 0 where
  pub sets : List ReplicationSet
  pub tables : List ReplicationSetTable

module _ {D : Type 0} where
  -- `for rows.Next() { ... Scan ... append ... }`, up to the first row that cannot be scanned.
  pub scan_all : {A : Type 0} → Text → List (Answer A) → Method D (List A)
  scan_all what [] w = (goes [], w)
  scan_all what (row ∷ rows) w =
      let (rest, v) = scan_all what rows w in
      elim row [
        | failure e ↦ (returns (refused what e), w)
        | answer a ↦ elim rest [ goes l ↦ (goes (a ∷ l), v) | returns e ↦ (returns e, v) ]
      ]

  abbrev pub check_rows : Text → Option DriverError → Method D (Unit {0})
  check_rows what none w = (goes tt, w)
  check_rows what (some e) w = (returns (refused what e), w)

module _ {D : Type 0} (driver : Driver D) where
  unfoldable pub backup_repsets : Conn → Text → Method D RepsetSnapshot
  unfolding scan_all
  backup_repsets c node_name = do
    rows ← call (refused (bytes "query replication sets on " ++ node_name)) (driver.query_sets c)
    sets ← scan_all (bytes "scan replication set on " ++ node_name) rows.scanned
    check_rows (bytes "read replication sets on " ++ node_name) rows.rows_err
    table_rows ←
        call (refused (bytes "query replication set tables on " ++ node_name))
          (driver.query_set_tables c)
    tables ← scan_all (bytes "scan replication set table on " ++ node_name) table_rows.scanned
    check_rows (bytes "read replication set tables on " ++ node_name) table_rows.rows_err
    λ w. (goes (record { sets = sets; tables = tables }), w)

  abbrev pub is_builtin : ReplicationSet → Bool
  is_builtin s =
      s.name == bytes "default"
      || (s.name == bytes "default_insert_only" || s.name == bytes "ddl_sql")

  pub create_sets : Tx → Text → List ReplicationSet → Method D (Unit {0})
  create_sets tx node_name [] w = (goes tt, w)
  create_sets tx node_name (s ∷ sets) w =
      if is_builtin s
      then create_sets tx node_name sets w
      else (tx_do driver tx (repset_create s)
              (bytes "recreate repset " ++ (s.name ++ (bytes " on " ++ node_name)))
            >> create_sets tx node_name sets)
          w

  pub add_tables : Tx → Text → List ReplicationSetTable → Method D (Unit {0})
  add_tables tx node_name [] w = (goes tt, w)
  add_tables tx node_name (t ∷ tables) w =
      (tx_do driver tx (repset_add_table t) (
            bytes "add table "
            ++ (t.table_name
                ++ (bytes " to repset " ++ (t.set_name ++ (bytes " on " ++ node_name)))))
          >> add_tables tx node_name tables)
        w

  abbrev pub is_blank : RepsetSnapshot → Bool
  is_blank snap = elim snap.sets [
    | [] ↦ elim snap.tables [ [] ↦ true | _ ∷ _ ↦ false ]
    | _ ∷ _ ↦ false
  ]

  abbrev pub restore_snapshot : Conn → Text → RepsetSnapshot → World D → Option Error × World D
  restore_snapshot c node_name snap =
      in_tx driver c (bytes "begin repset restore on " ++ node_name) (λ tx. do
        create_sets tx node_name snap.sets
        add_tables tx node_name snap.tables
        commit_tx driver tx (bytes "commit repset restore on " ++ node_name))

  -- The snapshot is a pointer, which is nil where there was no extension.
  unfoldable pub restore_repsets :
      Conn → Text → Option RepsetSnapshot → World D → Option Error × World D
  unfolding create_sets add_tables
  restore_repsets c node_name none w = (none, w)
  restore_repsets c node_name (some snap) w =
      if is_blank snap then (none, w) else restore_snapshot c node_name snap w
