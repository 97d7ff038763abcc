-- ===== src/Spock/Repset/Spared.antt =====
-- internal/spock/repset.go stays on its connection.
use pgedge_helm.Base.{
  ◌≡◌, refl, sym, subst, arith, List, [], ◌∷◌, Option, some, none, Option-cases, inl, inr, ◌++◌,
  if_ind,
}
use pgedge_helm.Base.Text.{Text, bytes, text_key}
use pgedge_helm.Resource.{Error}
use pgedge_helm.Spock.Types.{Conn}
use pgedge_helm.Spock.World.{
  Answer, Answer-cases, answer, failure, Driver, Tx, ReplicationSet, ReplicationSetTable, World,
  repset_create, repset_add_table,
}
use pgedge_helm.Spock.Flow.{Flow, Method, ◌>>◌, tx_do, commit_tx}
use pgedge_helm.Spock.Repset.{
  RepsetSnapshot, scan_all, backup_repsets, is_builtin, create_sets, add_tables, is_blank,
  restore_repsets,
}
use pgedge_helm.Spock.Repset.Saved.{Flow-cases}
use pgedge_helm.Spock.Flow.Keeps.{Spares, Keeps, then_keeps, call_keeps, tx_do_keeps, in_tx_keeps}

module _ {D : Type 0} where
  pub scan_all_same :
      {A : Type 0} (what : Text) (rows : List (Answer A)) (w : World D)
      → (scan_all what rows w).1 ≡ w
  unfolding scan_all
  scan_all_same what [] w = refl
  scan_all_same what (failure e ∷ rows) w = refl
  scan_all_same what (answer a ∷ rows) w =
      let same = scan_all_same what rows w in
      elim (Flow-cases (scan_all what rows w).0) [
        | inl (l, e) ↦ ground arith
        | inr (x, e) ↦ ground arith
      ]

module _ {D : Type 0} (driver : Driver D) (c : Conn) (P : D → Type 0) (Inside : Tx → D → Type 0)
    (spares : Spares driver c P Inside) where
  pub create_sets_keeps :
      (tx : Tx) (name : Text) (sets : List ReplicationSet)
      → Keeps (Inside tx) (create_sets driver tx name sets)
  unfolding create_sets
  create_sets_keeps tx name [] w p = p
  create_sets_keeps tx name (s ∷ sets) w p =
      if_ind (λ (r : Flow (Unit {0}) × World D). Inside tx r.1.databases) (is_builtin driver s)
        (create_sets_keeps tx name sets w p)
        (then_keeps (Inside tx)
          (tx_do driver tx (repset_create s)
            (bytes "recreate repset " ++ (s.name ++ (bytes " on " ++ name))))
          (create_sets driver tx name sets)
          (tx_do_keeps driver c P Inside spares tx (repset_create s) _)
          (create_sets_keeps tx name sets) w p)

  pub add_tables_keeps :
      (tx : Tx) (name : Text) (tables : List ReplicationSetTable)
      → Keeps (Inside tx) (add_tables driver tx name tables)
  unfolding add_tables
  add_tables_keeps tx name [] w p = p
  add_tables_keeps tx name (t ∷ tables) w p =
      then_keeps (Inside tx)
        (tx_do driver tx (repset_add_table t) (
          bytes "add table "
          ++ (t.table_name ++ (bytes " to repset " ++ (t.set_name ++ (bytes " on " ++ name))))))
        (add_tables driver tx name tables)
        (tx_do_keeps driver c P Inside spares tx (repset_add_table t) _)
        (add_tables_keeps tx name tables) w p

  pub restore_repsets_keeps :
      (name : Text) (snap : Option RepsetSnapshot) (w : World D)
      → P w.databases
      → P (restore_repsets driver c name snap w).1.databases
  unfolding restore_repsets
  restore_repsets_keeps name none w p = p
  restore_repsets_keeps name (some snap) w p =
      if_ind (λ (r : Option Error × World D). P r.1.databases) (is_blank driver snap) p
        (in_tx_keeps driver c P Inside spares (bytes "begin repset restore on " ++ name)
          (λ tx.
            create_sets driver tx name snap.sets
            >> (add_tables driver tx name snap.tables >> ends tx))
          (λ tx.
            then_keeps (Inside tx) (create_sets driver tx name snap.sets)
              (add_tables driver tx name snap.tables >> ends tx)
              (create_sets_keeps tx name snap.sets)
              (then_keeps (Inside tx) (add_tables driver tx name snap.tables) (ends tx)
                (add_tables_keeps tx name snap.tables)
                (call_keeps (Inside tx) _ (driver.commit tx) (spares.commit tx))))
          w p)
    where
      ends : Tx → Method D (Unit {0})
      ends tx = commit_tx driver tx (bytes "commit repset restore on " ++ name)

  pub backup_repsets_keeps : (name : Text) → Keeps P (backup_repsets driver c name)
  unfolding backup_repsets
  backup_repsets_keeps name w p =
      let r = driver.query_sets c w.databases in
      let w1 = record w { databases = r.1 } in
      let p1 = spares.query_sets w.databases p in
      let q = driver.query_set_tables c r.1 in
      let w2 = record w { databases = q.1 } in
      let p2 = spares.query_set_tables r.1 p1 in
      let left = (backup_repsets driver c name w).1.databases in
      let first : left ≡ r.1 → P left = λ e. subst P (sym e) p1 in
      let second : left ≡ q.1 → P left = λ e. subst P (sym e) p2 in
      let scan = scan_all {A = ReplicationSet} (bytes "scan replication set on " ++ name) in
      let scan_tables =
        scan_all {A = ReplicationSetTable} (bytes "scan replication set table on " ++ name) in
      elim (Answer-cases r.0) [
        | inr (e, failed) ↦ first (ground arith)
        | inl (rows, read) ↦
            let same = scan_all_same (bytes "scan replication set on " ++ name) rows.scanned w1 in
            elim (Flow-cases (scan rows.scanned w1).0) [
              | inr (e, bad) ↦ first (ground arith)
              | inl (sets, scanned) ↦ elim (Option-cases rows.rows_err) [
                | inr (e, bad) ↦ first (ground arith)
                | inl clean ↦ elim (Answer-cases q.0) [
                  | inr (e, failed) ↦ second (ground arith)
                  | inl (table_rows, told) ↦
                      let still =
                        scan_all_same (bytes "scan replication set table on " ++ name)
                          table_rows.scanned w2 in
                      elim (Flow-cases (scan_tables table_rows.scanned w2).0) [
                        | inr (e, bad) ↦ second (ground arith)
                        | inl (tables, got) ↦
                            second (ground (arith, Option-cases table_rows.rows_err))
                      ]
                ]
              ]
            ]
      ]
