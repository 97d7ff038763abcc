-- ===== src/Spock/Databases/Transactions.antt =====
-- The transactions of `Create`, `Update` and `Delete` (internal/spock): what they leave.
use pgedge_helm.Base.{
  Bool, true, Option, some, none, ◌≡◌, sym, subst, refl, ◌∙◌, arith, inl, inr, Bool-cases,
}
use pgedge_helm.Base.Text.{Text}
use pgedge_helm.Resource.{Error}
use pgedge_helm.Spock.Types.{Conn}
use pgedge_helm.Spock.World.{Driver, DriverError, Answer-cases, Query, Statement, Tx, World}
use pgedge_helm.Spock.Flow.{
  Method, ◌>>◌, call, refused, is_duplicate, unless_duplicate, finish, in_tx, tx_do, commit_tx,
}
use pgedge_helm.Spock.Databases.{Facts, says, changes, is_transactional, IsDatabase}

-- An error that is not returned is about a duplicate, in a transaction that can be rolled back.
abbrev pub Spares : Bool → Statement → (DriverError → Option Error) → Type 0
Spares safe s fails =
    (e : DriverError)
    → fails e ≡ none
    → (is_duplicate e ≡ true) × (safe ≡ true) × (is_transactional s ≡ true)

pub unless_duplicate-Spares :
    (what : Text) (s : Statement)
    → is_transactional s ≡ true
    → Spares true s (unless_duplicate what)
unless_duplicate-Spares what s h e k = (ground (arith, Bool-cases (is_duplicate e)), refl, h)

pub refused-Spares : (what : Text) (safe : Bool) (s : Statement) → Spares safe s (refused what)
refused-Spares what safe s e k = absurd (ground arith)

module _ {D : Type 0} (driver : Driver D) where
  -- A statement and the commit.
  abbrev pub change :
      Tx → (commit_what : Text) → (DriverError → Option Error) → Statement → Method D (Unit {0})
  change tx commit_what fails s = do
    call fails (driver.tx_exec tx s)
    commit_tx driver tx commit_what

  -- A transaction behind a first statement.
  abbrev pub behind :
      Conn
      → (begin_what : Text) → Statement
      → (first_what : Text) → (Tx → Method D (Unit {0}))
      → World D
      → Option Error × World D
  behind c begin_what first first_what body =
      in_tx driver c begin_what (λ tx. tx_do driver tx first first_what >> body tx)

module _ {D : Type 0} (driver : Driver D) (view : Conn → D → Facts) (home : Tx → D → Conn)
    (pending : Tx → D → Facts) (database : IsDatabase driver view home pending) where
  -- A transaction that has changed nothing yet.
  pub record IsOpen (safe : Bool) (c : Conn) (F : Facts) (tx : Tx) (d : D) : Type 0 where
    pub at_home : home tx d ≡ c
    pub sees : pending tx d ≡ F
    pub shown : safe ≡ true → view c d ≡ F

  -- A question leaves it open, and its answer is about what is committed.
  pub tx_ask_lem :
      (safe : Bool) (c : Conn) (F : Facts) (tx : Tx) (q : Query) (d : D)
      → IsOpen safe c F tx d
      → IsOpen safe c F tx (driver.tx_bool tx q d).1
  tx_ask_lem safe c F tx q d opened =
      let (home1, pending1) = database.tx_ask_keeps tx q d in
      record {
        at_home = home1 ∙ opened.at_home;
        sees = pending1 ∙ opened.sees;
        shown = λ h. database.tx_ask_hides c tx q d ∙ opened.shown h;
      }

  -- Where it succeeds, what is committed is what the statement makes.
  pub change_lem :
      (safe : Bool) (c : Conn) (F : Facts) (tx : Tx) (commit_what : Text)
      (fails : DriverError → Option Error)
      → (s : Statement) → Spares safe s fails
      → (f : Facts → Facts) → changes s ≡ some f
      → (w : World D) → IsOpen safe c F tx w.databases
      → (finish (change driver tx commit_what fails s) w).0 ≡ none
      → (q : Query) (b : Bool) → says q (f F) ≡ some b
      → says q (view c (finish (change driver tx commit_what fails s) w).1.databases) ≡ some b
  change_lem safe c F tx commit_what fails s spares f k w opened h q b e =
      let d = w.databases in
      let t = driver.tx_exec tx s d in
      let last = (finish (change driver tx commit_what fails s) w).1.databases in
      elim (Answer-cases t.0) [
        | inr (x, failed) ↦
            let spared : fails x ≡ none = ground arith in
            let (duplicate, revocable, transactional) = spares x spared in
            let known =
              database.duplicates tx s d f x k failed duplicate q b
                (subst (λ G. says q (f G) ≡ some b) (sym opened.sees) e) in
            let left : last ≡ t.1 = ground arith in
            let same : pending tx d ≡ view c last = ground (
              arith,
              opened.sees,
              opened.shown revocable,
              database.run_hides c tx s d transactional,
            ) in
            subst (λ G. says q G ≡ some b) same known
        | inl (_, ran) ↦
            let (home1, pending1) = database.runs tx s d f k ran in
            let m = driver.commit tx t.1 in
            elim (Answer-cases m.0) [
              | inr (x, failed) ↦ absurd (ground arith)
              | inl (_, committed) ↦
                  let left : last ≡ m.1 = ground arith in
                  let same : f F ≡ view c last = ground (
                    arith,
                    opened.at_home,
                    opened.sees,
                    home1,
                    pending1,
                    database.commits tx t.1 committed,
                  ) in
                  subst (λ G. says q G ≡ some b) same e
            ]
      ]

  -- Where the first statement changes no fact, the transaction leaves what its body leaves, which
  -- starts with what is committed.
  pub behind_lem :
      (Q : Facts → Type 0) (c : Conn) (begin_what : Text) (first : Statement) (first_what : Text)
      → changes first ≡ some (λ F. F)
      → (body : Tx → Method D (Unit {0})) (w : World D)
      → (behind driver c begin_what first first_what body w).0 ≡ none
      → ((tx : Tx) (v : World D)
          → IsOpen (is_transactional first) c (view c w.databases) tx v.databases
          → (finish (body tx) v).0 ≡ none
          → Q (view c (finish (body tx) v).1.databases))
      → Q (view c (behind driver c begin_what first first_what body w).1.databases)
  behind_lem Q c begin_what first first_what idle body w h g =
      elim (Answer-cases (driver.begin c w.databases).0) [
        | inr (x, failed) ↦ absurd (ground arith)
        | inl (tx, begun) ↦
            let d = (driver.begin c w.databases).1 in
            let r = driver.tx_exec tx first d in
            let (home1, pending1) = database.begins c w.databases tx begun in
            elim (Answer-cases r.0) [
              | inr (x, failed) ↦ absurd (ground arith)
              | inl (_, repaired) ↦
                  let (home2, pending2) = database.runs tx first d (λ F. F) idle repaired in
                  let v = record w { databases = r.1 } in
                  let left = (finish (body tx) v).1.databases in
                  let opened : IsOpen (is_transactional first) c (view c w.databases) tx r.1 =
                    record {
                      at_home = home2 ∙ home1;
                      sees = pending2 ∙ pending1;
                      shown = λ h.
                          database.run_hides c tx first d h ∙ database.begin_hides c c w.databases;
                    } in
                  let same : view c left
                      ≡ view c (behind driver c begin_what first first_what body w).1.databases =
                    ground (arith, database.rolls_back c tx left) in
                  subst Q same (g tx v opened (ground arith))
            ]
      ]

  -- A transaction of one statement behind the first.
  pub one_change_lem :
      (c : Conn) (begin_what : Text) (first : Statement) (first_what commit_what : Text)
      → changes first ≡ some (λ F. F)
      → (fails : DriverError → Option Error) (s : Statement)
      → Spares (is_transactional first) s fails
      → (f : Facts → Facts) → changes s ≡ some f
      → (w : World D)
      → (behind driver c begin_what first first_what
          (λ tx. change driver tx commit_what fails s)
          w).0
        ≡ none
      → (q : Query) (b : Bool) → says q (f (view c w.databases)) ≡ some b
      → says q (
          view c
            (behind driver c begin_what first first_what
              (λ tx. change driver tx commit_what fails s)
              w).1.databases)
        ≡ some b
  one_change_lem c begin_what first first_what commit_what idle fails s spares f k w h q b e =
      behind_lem (λ F. says q F ≡ some b) c begin_what first first_what idle
        (λ tx. change driver tx commit_what fails s) w h
        (λ tx v opened done.
          change_lem (is_transactional first) c (view c w.databases) tx commit_what fails s spares f
            k v opened done q b e)
