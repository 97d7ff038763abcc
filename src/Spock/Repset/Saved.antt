-- ===== src/Spock/Repset/Saved.antt =====
-- `backupRepsets` (internal/spock/repset.go): what it reads.
use pgedge_helm.Base.{
  ◌≡◌, ◌≢◌, refl, List, [], ◌∷◌, ◌++◌, map, Option, none, arith, inl, inr, ◌⊎◌, Option-cases,
}
use pgedge_helm.Base.Text.{Text, bytes}
use pgedge_helm.Resource.{Error}
use pgedge_helm.Spock.Types.{Conn}
use pgedge_helm.Spock.World.{
  Answer, Answer-cases, answer, failure, Driver, ReplicationSet, ReplicationSetTable, Rows, World,
}
use pgedge_helm.Spock.Flow.{Flow, goes, returns}
use pgedge_helm.Spock.Repset.{RepsetSnapshot, scan_all, backup_repsets}

pub Flow-cases :
    {A : Type 0} (f : Flow A) → ((a : A) × (f ≡ goes a)) ⊎ ((e : Option Error) × (f ≡ returns e))
Flow-cases (goes a) = inl (a, refl)
Flow-cases (returns e) = inr (e, refl)

module _ {D : Type 0} (driver : Driver D) where
  -- The snapshot is all that the catalog answers, at a state of the databases.
  pub record IsSnapshot (c : Conn) (d : D) (snap : RepsetSnapshot) : Type 0 where
    pub rows : Rows ReplicationSet
    pub sets_asked : (driver.query_sets c d).0 ≡ answer rows
    pub sets_read : rows.scanned ≡ map answer snap.sets
    pub sets_whole : rows.rows_err ≡ none
    pub table_rows : Rows ReplicationSetTable
    pub tables_asked : (driver.query_set_tables c (driver.query_sets c d).1).0 ≡ answer table_rows
    pub tables_read : table_rows.scanned ≡ map answer snap.tables
    pub tables_whole : table_rows.rows_err ≡ none

  scan_all_lem :
      {A : Type 0} (what : Text) (rows : List (Answer A)) (w : World D) (l : List A)
      → (scan_all what rows w).0 ≡ goes l
      → (rows ≡ map answer l) × ((scan_all what rows w).1 ≡ w)
  unfolding scan_all
  scan_all_lem what [] w l h = (ground arith, refl)
  scan_all_lem what (failure e ∷ rows) w l h = absurd (ground arith)
  scan_all_lem what (answer a ∷ rows) w l h = elim (Flow-cases (scan_all what rows w).0) [
    | inr (e, failed) ↦ absurd (ground arith)
    | inl (m, scanned) ↦
        let (p, q) = scan_all_lem what rows w m scanned in (ground arith, ground arith)
  ]

  scan_all_loud :
      {A : Type 0} (what : Text) (rows : List (Answer A)) (w : World D)
      → (scan_all what rows w).0 ≢ returns none
  unfolding scan_all
  scan_all_loud what [] w h = absurd (ground arith)
  scan_all_loud what (failure e ∷ rows) w h = absurd (ground arith)
  scan_all_loud what (answer a ∷ rows) w h =
      absurd (ground (arith, scan_all_loud what rows w, Flow-cases (scan_all what rows w).0))

  -- `backupRepsets` does not return without a snapshot or an error.
  pub backup_repsets_loud :
      (c : Conn) (name : Text) (w : World D) → (backup_repsets driver c name w).0 ≢ returns none
  unfolding backup_repsets
  backup_repsets_loud c name w h =
      let r = driver.query_sets c w.databases in
      let w1 = record w { databases = r.1 } in
      let what = bytes "scan replication set on " ++ name in
      let table_what = bytes "scan replication set table on " ++ name in
      elim (Answer-cases r.0) [
        | inr (e, failed) ↦ absurd (ground arith)
        | inl (rows, asked) ↦
            let v = (scan_all what rows.scanned w1).1 in
            let t = driver.query_set_tables c v.databases in
            elim (Answer-cases t.0) [
              | inr (e, failed) ↦ absurd (
                  ground (
                    arith,
                    scan_all_loud what rows.scanned w1,
                    Option-cases rows.rows_err,
                    Flow-cases (scan_all what rows.scanned w1).0,
                  ))
              | inl (table_rows, tables_asked) ↦
                  let v1 = record v { databases = t.1 } in
                  absurd (
                    ground (
                      arith,
                      scan_all_loud what rows.scanned w1,
                      scan_all_loud table_what table_rows.scanned v1,
                      Option-cases rows.rows_err,
                      Option-cases table_rows.rows_err,
                      Flow-cases (scan_all what rows.scanned w1).0,
                      Flow-cases (scan_all table_what table_rows.scanned v1).0,
                    ))
            ]
      ]

  pub backup_repsets-IsSnapshot :
      (c : Conn) (name : Text) (w : World D) (snap : RepsetSnapshot)
      → (backup_repsets driver c name w).0 ≡ goes snap
      → IsSnapshot c w.databases snap
        × ((backup_repsets driver c name w).1.databases
            ≡ (driver.query_set_tables c (driver.query_sets c w.databases).1).1)
  unfolding backup_repsets
  backup_repsets-IsSnapshot c name w snap h =
      let r = driver.query_sets c w.databases in
      let w1 = record w { databases = r.1 } in
      elim (Answer-cases r.0) [
        | inr (e, failed) ↦ absurd (ground arith)
        | inl (rows, asked) ↦
            let what = bytes "scan replication set on " ++ name in
            elim (Flow-cases (scan_all what rows.scanned w1).0) [
              | inr (e, failed) ↦ absurd (ground arith)
              | inl (sets, scanned) ↦
                  let (p1, q1) = scan_all_lem what rows.scanned w1 sets scanned in
                  let t = driver.query_set_tables c r.1 in
                  let w2 = record w { databases = t.1 } in
                  elim (Option-cases rows.rows_err) [
                    | inr (e, broken) ↦ absurd (ground arith)
                    | inl whole ↦ elim (Answer-cases t.0) [
                      | inr (e, failed) ↦ absurd (ground arith)
                      | inl (table_rows, tables_asked) ↦
                          let table_what = bytes "scan replication set table on " ++ name in
                          elim (Flow-cases (scan_all table_what table_rows.scanned w2).0) [
                            | inr (e, failed) ↦ absurd (ground arith)
                            | inl (tables, tables_scanned) ↦
                                let (p2, q2) =
                                  scan_all_lem table_what table_rows.scanned w2 tables
                                    tables_scanned in
                                elim (Option-cases table_rows.rows_err) [
                                  | inr (e, broken) ↦ absurd (ground arith)
                                  | inl tables_whole ↦ (
                                    record {
                                      rows = rows;
                                      sets_asked = asked;
                                      sets_read = ground arith;
                                      sets_whole = whole;
                                      table_rows = table_rows;
                                      tables_asked = tables_asked;
                                      tables_read = ground arith;
                                      tables_whole = tables_whole;
                                    },
                                    ground arith,
                                  )
                                ]
                          ]
                    ]
                  ]
            ]
      ]
