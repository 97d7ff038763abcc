-- ===== src/Connections/Success.antt =====
-- When `WaitReady` (internal/pg/pg.go) succeeds.
use pgedge_helm.Base.{ℕ, zero, suc, ◌+◌, ◌-◌, ◌*◌, ◌<◌, ◌≤◌, ◌≡◌, ◌⊎◌, some, arith, inl, inr}
use pgedge_helm.Base.Text.{Text}
use pgedge_helm.Io.{ok, Result-cases, StaysOpen, OnTime, came_up}
use pgedge_helm.Connections.{Pgx, wait_ready}
use pgedge_helm.Connections.Ends.{attempt}

-- `Accepts m s` says that, `m` seconds after `s` and from then on, the node takes connections.
module _ {S : Type 0} (pgx : Pgx S) (hostname internal_hostname db_name user : Text)
    (Open Accepts : ℕ → S → Type 0) (stays_open : StaysOpen pgx.ctx_err pgx.wait Open)
    (is_accepted : (s : S)
      → Accepts 0 s
      → (conn : ℕ) × ((attempt pgx hostname internal_hostname db_name user s).0 ≡ ok conn))
    (wait_accepts : (m : ℕ) (s : S) → Accepts m s → Accepts (m - 3) (pgx.wait 3 s))
    (attempt_keeps : (n m : ℕ) (s : S)
      → Open n s
      → Accepts m s
      → Open n (attempt pgx hostname internal_hostname db_name user s).1
        × Accepts m (attempt pgx hostname internal_hostname db_name user s).1)
    (close_keeps : (conn n m : ℕ) (s : S)
      → Open n s
      → Accepts m s
      → Open n (pgx.close conn s) × Accepts m (pgx.close conn s)) where
  -- It tries every 3 seconds: one attempt more than fit in `m` seconds, rounded up, is enough.
  pub wait_ready_in_time :
      (slack fuel n m : ℕ) (s : S)
      → 2 ≤ slack
      → Open n s
      → Accepts m s
      → (m ≡ 0) ⊎ (m + slack < n)
      → m + 2 < 3 * fuel
      → (after : S) × (wait_ready pgx fuel hostname internal_hostname db_name user s
          ≡ some (came_up, after))
        × OnTime Open Accepts slack m after
  unfolding wait_ready
  wait_ready_in_time slack zero n m s two open_s accepts in_time enough = absurd (omega arith)
  wait_ready_in_time slack (suc fuel) n zero s two open_s accepts in_time enough =
      let r = attempt pgx hostname internal_hostname db_name user s in
      let (conn, accepted) = is_accepted s accepts in
      let (open_1, accepts_1) = attempt_keeps n zero s open_s accepts in
      let (open_2, accepts_2) = close_keeps conn n zero r.1 open_1 accepts_1 in
      (pgx.close conn r.1, ground arith, (n, zero, open_2, accepts_2, in_time, omega arith))
  wait_ready_in_time slack (suc fuel) n (suc m) s two open_s accepts in_time enough =
      let r = attempt pgx hostname internal_hostname db_name user s in
      let s2 = pgx.wait 3 r.1 in
      let (open_1, accepts_1) = attempt_keeps n (suc m) s open_s accepts in
      let open_2 = stays_open.wait_shortens 3 n r.1 open_1 in
      let going = stays_open.is_open (n - 3) s2 (ground arith) open_2 in
      let (after, e, (left, due, open_3, accepts_3, soon, sooner)) =
        wait_ready_in_time slack fuel (n - 3) (suc m - 3) s2 two open_2
          (wait_accepts (suc m) r.1 accepts_1) (ground arith) (omega arith) in
      elim (Result-cases r.0) [
        | inl (conn, accepted) ↦
            let (open_3, accepts_3) = close_keeps conn n (suc m) r.1 open_1 accepts_1 in
            (pgx.close conn r.1, ground arith, (n, suc m, open_3, accepts_3, in_time, omega arith))
        | inr (_, refused) ↦
            (after, ground arith, (left, due, open_3, accepts_3, soon, omega arith))
      ]
