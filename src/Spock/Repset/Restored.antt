-- ===== src/Spock/Repset/Restored.antt =====
-- `restoreRepsets` (internal/spock/repset.go): what it sends to the node.
use pgedge_helm.Base.{
  ◌≡◌, ◌≢◌, refl, sym, true, List, [], ◌∷◌, ◌++◌, append_assoc, append-nil, map, none, some, arith,
  if◌then◌else◌, Bool-cases, inl, inr,
}
use pgedge_helm.Base.Text.{Text, bytes}
use pgedge_helm.Spock.Types.{Conn}
use pgedge_helm.Spock.World.{
  Answer-cases, answer, Driver, Tx, Statement, ReplicationSet, ReplicationSetTable, repset_create,
  repset_add_table, World,
}
use pgedge_helm.Spock.Flow.{goes, returns, Method, ◌>>◌, finish, commit_tx}
use pgedge_helm.Spock.Repset.{
  RepsetSnapshot, is_builtin, is_blank, create_sets, add_tables, restore_repsets,
}

-- A driver that keeps a log of the statements that succeed in transactions.
pub record IsLogging {D : Type 0} (driver : Driver D) (log : D → List Statement) : Type 0 where
  pub logs_exec :
      (tx : Tx) (s : Statement) (d : D)
      → (driver.tx_exec tx s d).0 ≡ answer tt
      → log (driver.tx_exec tx s d).1 ≡ log d ++ s ∷ []
  pub logs_begin : (c : Conn) (d : D) → log (driver.begin c d).1 ≡ log d
  pub logs_commit : (tx : Tx) (d : D) → log (driver.commit tx d).1 ≡ log d
  pub logs_rollback : (tx : Tx) (d : D) → log (driver.rollback tx d) ≡ log d

module _ {D : Type 0} (driver : Driver D) (log : D → List Statement)
    (logging : IsLogging driver log) where
  -- The sets that are not built in.
  abbrev pub recreated : List ReplicationSet → List Statement
  recreated [] = []
  recreated (s ∷ sets) =
      if is_builtin driver s then recreated sets else repset_create s ∷ recreated sets

  abbrev pub added : List ReplicationSetTable → List Statement
  added tables = map repset_add_table tables

  create_sets-log :
      (tx : Tx) (name : Text) (sets : List ReplicationSet) (w : World D)
      → (create_sets driver tx name sets w).0 ≡ goes tt
      → log (create_sets driver tx name sets w).1.databases ≡ log w.databases ++ recreated sets
  unfolding create_sets
  create_sets-log tx name [] w h = sym (append-nil (log w.databases))
  create_sets-log tx name (s ∷ sets) w h = elim (Bool-cases (is_builtin driver s)) [
    | inl builtin ↦ ground (arith, create_sets-log tx name sets w)
    | inr custom ↦
        let d = (driver.tx_exec tx (repset_create s) w.databases).1 in
        ground (
          arith,
          create_sets-log tx name sets (record w { databases = d }),
          logging.logs_exec tx (repset_create s) w.databases,
          append_assoc (log w.databases) (repset_create s ∷ []) (recreated sets),
        )
  ]

  add_tables-log :
      (tx : Tx) (name : Text) (tables : List ReplicationSetTable) (w : World D)
      → (add_tables driver tx name tables w).0 ≡ goes tt
      → log (add_tables driver tx name tables w).1.databases ≡ log w.databases ++ added tables
  unfolding add_tables
  add_tables-log tx name [] w h = sym (append-nil (log w.databases))
  add_tables-log tx name (t ∷ tables) w h =
      let d = (driver.tx_exec tx (repset_add_table t) w.databases).1 in
      ground (
        arith,
        add_tables-log tx name tables (record w { databases = d }),
        logging.logs_exec tx (repset_add_table t) w.databases,
        append_assoc (log w.databases) (repset_add_table t ∷ []) (added tables),
      )

  -- Neither loop returns without an error.
  create_sets_loud :
      (tx : Tx) (name : Text) (sets : List ReplicationSet) (w : World D)
      → (create_sets driver tx name sets w).0 ≢ returns none
  unfolding create_sets
  create_sets_loud tx name [] w h = absurd (ground arith)
  create_sets_loud tx name (s ∷ sets) w h =
      let d = (driver.tx_exec tx (repset_create s) w.databases).1 in
      absurd (
        ground (
          arith,
          create_sets_loud tx name sets w,
          create_sets_loud tx name sets (record w { databases = d }),
        ))

  add_tables_loud :
      (tx : Tx) (name : Text) (tables : List ReplicationSetTable) (w : World D)
      → (add_tables driver tx name tables w).0 ≢ returns none
  unfolding add_tables
  add_tables_loud tx name [] w h = absurd (ground arith)
  add_tables_loud tx name (t ∷ tables) w h =
      let d = (driver.tx_exec tx (repset_add_table t) w.databases).1 in
      absurd (ground (arith, add_tables_loud tx name tables (record w { databases = d })))

  -- The body of the transaction.
  abbrev restoring : Tx → Text → RepsetSnapshot → Method D (Unit {0})
  restoring tx name snap = do
    create_sets driver tx name snap.sets
    add_tables driver tx name snap.tables
    commit_tx driver tx (bytes "commit repset restore on " ++ name)

  restoring-log :
      (tx : Tx) (name : Text) (snap : RepsetSnapshot) (w : World D)
      → (finish (restoring tx name snap) w).0 ≡ none
      → log (finish (restoring tx name snap) w).1.databases
        ≡ log w.databases ++ (recreated snap.sets ++ added snap.tables)
  restoring-log tx name snap w h =
      let v = (create_sets driver tx name snap.sets w).1 in
      let u = (add_tables driver tx name snap.tables v).1 in
      ground (
        arith,
        create_sets-log tx name snap.sets w,
        create_sets_loud tx name snap.sets w,
        add_tables-log tx name snap.tables v,
        add_tables_loud tx name snap.tables v,
        logging.logs_commit tx u.databases,
        append_assoc (log w.databases) (recreated snap.sets) (added snap.tables),
      )

  blank-nil :
      (sets : List ReplicationSet) (tables : List ReplicationSetTable)
      → is_blank driver (record { sets = sets; tables = tables }) ≡ true
      → recreated sets ++ added tables ≡ []
  blank-nil [] [] h = refl
  blank-nil [] (t ∷ tables) h = absurd (ground arith)
  blank-nil (s ∷ sets) tables h = absurd (ground arith)

  -- When `restoreRepsets` succeeds with a snapshot, on a driver that logs the statements that succeed in
  -- transactions, those are the ones that recreate every set of the snapshot that is not built in, and
  -- then those that add every table to its set, in the order of the snapshot.
  pub restore_repsets-log :
      (c : Conn) (name : Text) (snap : RepsetSnapshot) (w : World D)
      → (restore_repsets driver c name (some snap) w).0 ≡ none
      → log (restore_repsets driver c name (some snap) w).1.databases
        ≡ log w.databases ++ (recreated snap.sets ++ added snap.tables)
  unfolding restore_repsets
  restore_repsets-log c name snap w h = elim (Bool-cases (is_blank driver snap)) [
    | inl blank ↦
        ground (arith, blank-nil snap.sets snap.tables blank, append-nil (log w.databases))
    | inr full ↦ elim (Answer-cases (driver.begin c w.databases).0) [
      | inr (e, refused_begin) ↦ absurd (ground arith)
      | inl (tx, begun) ↦
          let v = record w { databases = (driver.begin c w.databases).1 } in
          let u = (finish (restoring tx name snap) v).1 in
          ground (
            arith,
            restoring-log tx name snap v,
            logging.logs_begin c w.databases,
            logging.logs_rollback tx u.databases,
          )
    ]
  ]
