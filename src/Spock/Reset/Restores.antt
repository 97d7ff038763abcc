-- ===== src/Spock/Reset/Restores.antt =====
-- `resetNode` (internal/spock/reset.go): the replication sets outlive the extension.
use pgedge_helm.Base.{
  ◌≡◌, sym, ap, ◌∙◌, true, List, [], ◌∷◌, ◌++◌, append_assoc, append-nil, Option, none, some, arith,
  inl, inr, Option-cases,
}
use pgedge_helm.Base.Text.{Text, bytes}
use pgedge_helm.Config.{Node}
use pgedge_helm.Spock.Types.{Conn}
use pgedge_helm.Spock.World.{
  DriverError, Answer-cases, answer, failure, Driver, Statement, Query, spock_extension_exists,
  drop_extension, create_extension, terminate_walsenders, drop_spock_slots, drop_spock_origins,
  node_create_always, World,
}
use pgedge_helm.Spock.Flow.{Method, ◌>>◌, finish}
use pgedge_helm.Spock.Changes.{dsn_of}
use pgedge_helm.Spock.Repset.{RepsetSnapshot, backup_repsets, restore_repsets}
use pgedge_helm.Spock.Repset.Restored.{IsLogging, recreated, added, restore_repsets-log}
use pgedge_helm.Spock.Repset.Saved.{
  Flow-cases, IsSnapshot, backup_repsets_loud, backup_repsets-IsSnapshot,
}
use pgedge_helm.Spock.Reset.{attempt, do_now, under, reset_node}

-- The log also has the statements outside of transactions, and no query.
pub record LogsAll {D : Type 0} (driver : Driver D) (log : D → List Statement) : Type 0 where
  pub in_transactions : IsLogging driver log
  pub logs_done :
      (c : Conn) (s : Statement) (d : D)
      → (driver.exec c s d).0 ≡ answer tt
      → log (driver.exec c s d).1 ≡ log d ++ s ∷ []
  pub logs_failed :
      (c : Conn) (s : Statement) (e : DriverError) (d : D)
      → (driver.exec c s d).0 ≡ failure e
      → log (driver.exec c s d).1 ≡ log d
  pub logs_no_query : (c : Conn) (q : Query) (d : D) → log (driver.query_bool c q d).1 ≡ log d
  pub logs_no_sets : (c : Conn) (d : D) → log (driver.query_sets c d).1 ≡ log d
  pub logs_no_tables : (c : Conn) (d : D) → log (driver.query_set_tables c d).1 ≡ log d

append_chain :
    {A : Type 0} (k x1 x2 x3 x4 x5 x6 x7 : List A) (a b m : A) (t1 t2 t3 r : List A)
    → x1 ≡ k ++ a ∷ []
    → x2 ≡ x1 ++ t1
    → x3 ≡ x2 ++ t2
    → x4 ≡ x3 ++ t3
    → x5 ≡ x4 ++ b ∷ []
    → x6 ≡ x5 ++ m ∷ []
    → x7 ≡ x6 ++ r
    → x7 ≡ k ++ (a ∷ t1 ++ (t2 ++ (t3 ++ b ∷ m ∷ r)))
append_chain k x1 x2 x3 x4 x5 x6 x7 a b m t1 t2 t3 r e1 e2 e3 e4 e5 e6 e7 =
    let flat : ((((((k ++ a ∷ []) ++ t1) ++ t2) ++ t3) ++ b ∷ []) ++ m ∷ []) ++ r
        ≡ k ++ (a ∷ t1 ++ (t2 ++ (t3 ++ b ∷ m ∷ r))) =
      simp (append_assoc) in
    cc

module _ {D : Type 0} (driver : Driver D) (log : D → List Statement)
    (logs : LogsAll driver log) where
  -- What an attempt adds to the log.
  abbrev pub tried : Conn → Statement → D → List Statement
  tried c s d = elim (driver.exec c s d).0 [ answer _ ↦ s ∷ [] | failure _ ↦ [] ]

  tried_lem : (c : Conn) (s : Statement) (d : D) → log (driver.exec c s d).1 ≡ log d ++ tried c s d
  tried_lem c s d = elim (Answer-cases (driver.exec c s d).0) [
    | inl (_, done) ↦ ground (arith, logs.logs_done c s d)
    | inr (e, failed) ↦ ground (arith, logs.logs_failed c s e d failed, append-nil (log d))
  ]

  -- Behind the backup, `resetNode` is these statements.
  abbrev rebuild :
      Conn → Node → (db_name pgedge_user : Text) → Option RepsetSnapshot → Method D (Unit {0})
  rebuild c node db_name pgedge_user snap = do
    do_now driver c drop_extension (bytes "drop spock extension on " ++ node.name)
    attempt driver c terminate_walsenders
    attempt driver c drop_spock_slots
    attempt driver c drop_spock_origins
    do_now driver c create_extension (bytes "create spock extension on " ++ node.name)
    do_now driver c (node_create_always node.name (dsn_of node.hostname db_name pgedge_user))
        (bytes "create spock node on " ++ node.name)
    under driver (bytes "restore repsets on " ++ node.name)
        (restore_repsets driver c node.name snap)

  abbrev pub rebuilt :
      Conn → Node → (db_name pgedge_user : Text) → D → RepsetSnapshot → List Statement
  rebuilt c node db_name pgedge_user d snap =
      let d1 = (driver.exec c drop_extension d).1 in
      let d2 = (driver.exec c terminate_walsenders d1).1 in
      let d3 = (driver.exec c drop_spock_slots d2).1 in
      drop_extension ∷ tried c terminate_walsenders d1
      ++ (tried c drop_spock_slots d2
          ++ (tried c drop_spock_origins d3
              ++ create_extension
                ∷ node_create_always node.name (dsn_of node.hostname db_name pgedge_user)
                ∷ (recreated driver log logs.in_transactions snap.sets
                    ++ added driver log logs.in_transactions snap.tables)))

  rebuild-log :
      (c : Conn) (node : Node) (db_name pgedge_user : Text) (snap : RepsetSnapshot) (w : World D)
      → (finish (rebuild c node db_name pgedge_user (some snap)) w).0 ≡ none
      → log (finish (rebuild c node db_name pgedge_user (some snap)) w).1.databases
        ≡ log w.databases ++ rebuilt c node db_name pgedge_user w.databases snap
  rebuild-log c node db_name pgedge_user snap w h =
      let make = node_create_always node.name (dsn_of node.hostname db_name pgedge_user) in
      let r1 = driver.exec c drop_extension w.databases in
      let d2 = (driver.exec c terminate_walsenders r1.1).1 in
      let d3 = (driver.exec c drop_spock_slots d2).1 in
      let d4 = (driver.exec c drop_spock_origins d3).1 in
      let r5 = driver.exec c create_extension d4 in
      let r6 = driver.exec c make r5.1 in
      let v = record w { databases = r6.1 } in
      let last = restore_repsets driver c node.name (some snap) v in
      elim (Answer-cases r1.0) [
        | inr (e, failed) ↦ absurd (ground arith)
        | inl (_, dropped) ↦ elim (Answer-cases r5.0) [
          | inr (e, failed) ↦ absurd (ground arith)
          | inl (_, created) ↦ elim (Answer-cases r6.0) [
            | inr (e, failed) ↦ absurd (ground arith)
            | inl (_, made) ↦
                let restored : last.0 ≡ none = ground arith in
                let l1 = logs.logs_done c drop_extension w.databases dropped in
                let l2 = tried_lem c terminate_walsenders r1.1 in
                let l3 = tried_lem c drop_spock_slots d2 in
                let l4 = tried_lem c drop_spock_origins d3 in
                let l5 = logs.logs_done c create_extension d4 created in
                let l6 = logs.logs_done c make r5.1 made in
                let l7 =
                  restore_repsets-log driver log logs.in_transactions c node.name snap v restored in
                let first : last.1.databases
                    ≡ (finish (rebuild c node db_name pgedge_user (some snap)) w).1.databases =
                  ground arith in
                ap log (sym first)
                ∙ append_chain (log w.databases) (log r1.1) (log d2) (log d3) (log d4) (log r5.1)
                    (log r6.1) (log last.1.databases) drop_extension create_extension make
                    (tried c terminate_walsenders r1.1) (tried c drop_spock_slots d2)
                    (tried c drop_spock_origins d3)
                    (recreated driver log logs.in_transactions snap.sets
                      ++ added driver log logs.in_transactions snap.tables)
                    l1 l2 l3 l4 l5 l6 l7
          ]
        ]
      ]

  -- When `resetNode` succeeds on a node with the extension, it dropped the extension behind a backup
  -- that read the whole catalog of replication sets, and the statements that ran since recreate each
  -- set of the backup that is not built in and add every table, in the order of the catalog: for a
  -- driver that logs what succeeds, where the statements between the drop and the creation of the
  -- extension may fail.
  pub reset_node-IsSnapshot :
      (c : Conn) (node : Node) (db_name pgedge_user : Text) (w : World D)
      → (driver.query_bool c spock_extension_exists w.databases).0 ≡ answer true
      → (reset_node driver c node db_name pgedge_user w).0 ≡ none
      → (snap : RepsetSnapshot) × IsSnapshot driver c
          (driver.query_bool c spock_extension_exists w.databases).1
          snap
        × (log (reset_node driver c node db_name pgedge_user w).1.databases
            ≡ log w.databases
              ++ rebuilt c node db_name pgedge_user
                  (backup_repsets driver c node.name (record w {
                    databases = (driver.query_bool c spock_extension_exists w.databases).1;
                  })).1.databases
                  snap)
  unfolding reset_node
  reset_node-IsSnapshot c node db_name pgedge_user w exists h =
      let d0 = (driver.query_bool c spock_extension_exists w.databases).1 in
      let w0 = record w { databases = d0 } in
      let b = backup_repsets driver c node.name w0 in
      elim (Flow-cases b.0) [
        | inr (e, failed) ↦ elim (Option-cases e) [
          | inl silent ↦ absurd (ground (arith, backup_repsets_loud driver c node.name w0))
          | inr (x, told) ↦ absurd (ground arith)
        ]
        | inl (snap, saved) ↦
            let (is_snapshot, left) = backup_repsets-IsSnapshot driver c node.name w0 snap saved in
            let same : finish (rebuild c node db_name pgedge_user (some snap)) b.1
                ≡ reset_node driver c node db_name pgedge_user w =
              ground arith in
            let built = rebuild-log c node db_name pgedge_user snap b.1 (ground (arith, same)) in
            let before : log b.1.databases ≡ log w.databases = ground (
              arith,
              logs.logs_no_query c spock_extension_exists w.databases,
              logs.logs_no_sets c d0,
              logs.logs_no_tables c (driver.query_sets c d0).1,
            ) in
            (
              snap,
              is_snapshot,
              ap (λ p. log p.1.databases) (sym same)
                  ∙ built
                  ∙ ap (λ l. l ++ rebuilt c node db_name pgedge_user b.1.databases snap) before,
            )
      ]
