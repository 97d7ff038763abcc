-- ===== src/Readiness/Success.antt =====
-- When `waitForAll` (internal/cluster/cluster.go) succeeds.
use pgedge_helm.Base.{
  ℕ, zero, suc, ◌+◌, ◌-◌, ◌*◌, ◌<◌, ◌≡◌, ◌⊎◌, some, true, arith, Bool-cases, inl, inr,
}
use pgedge_helm.Base.Text.{Text}
use pgedge_helm.Io.{StaysOpen, OnTime, came_up}
use pgedge_helm.Readiness.{Client, Kubernetes, cnpg_gvr, label_selector, is_ready, wait_for_all}

-- `Settles m s` says that, `m` seconds after `s` and from then on, there are clusters and all are
-- healthy.
module _ {S : Type 0} (kubernetes : Kubernetes S) (client : Client) (namespace app_name : Text)
    (Open Settles : ℕ → S → Type 0) (stays_open : StaysOpen kubernetes.ctx_err kubernetes.wait Open)
    (is_settled : (s : S)
      → Settles 0 s
      → is_ready (kubernetes.list client cnpg_gvr namespace (label_selector app_name) s).0 ≡ true)
    (wait_settles : (m : ℕ) (s : S) → Settles m s → Settles (m - 5) (kubernetes.wait 5 s))
    (list_keeps : (n m : ℕ) (s : S)
      → Open n s
      → Settles m s
      → Open n (kubernetes.list client cnpg_gvr namespace (label_selector app_name) s).1
        × Settles m (kubernetes.list client cnpg_gvr namespace (label_selector app_name) s).1) where
  -- It polls every 5 seconds: one poll more than fit in `m` seconds, rounded up, is enough.
  pub wait_for_all_in_time :
      (fuel n m : ℕ) (s : S)
      → Open n s
      → Settles m s
      → (m ≡ 0) ⊎ (m + 4 < n)
      → m + 4 < 5 * fuel
      → (after : S) × (wait_for_all kubernetes fuel client namespace app_name s
          ≡ some (came_up, after))
        × OnTime Open Settles 4 m after
  unfolding wait_for_all
  wait_for_all_in_time zero n m s open_s settles in_time enough = absurd (omega arith)
  wait_for_all_in_time (suc fuel) n zero s open_s settles in_time enough =
      let r = kubernetes.list client cnpg_gvr namespace (label_selector app_name) s in
      let ready = is_settled s settles in
      let (open_1, settles_1) = list_keeps n zero s open_s settles in
      (r.1, ground arith, (n, zero, open_1, settles_1, in_time, omega arith))
  wait_for_all_in_time (suc fuel) n (suc m) s open_s settles in_time enough =
      let r = kubernetes.list client cnpg_gvr namespace (label_selector app_name) s in
      let s2 = kubernetes.wait 5 r.1 in
      let (open_1, settles_1) = list_keeps n (suc m) s open_s settles in
      let open_2 = stays_open.wait_shortens 5 n r.1 open_1 in
      let going = stays_open.is_open (n - 5) s2 (ground arith) open_2 in
      let (after, e, (left, due, open_3, settles_3, soon, sooner)) =
        wait_for_all_in_time fuel (n - 5) (suc m - 5) s2 open_2 (wait_settles (suc m) r.1 settles_1)
          (ground arith) (omega arith) in
      elim (Bool-cases (is_ready r.0)) [
        | inl ready ↦ (r.1, ground arith, (n, suc m, open_1, settles_1, in_time, omega arith))
        | inr not_ready ↦ (after, ground arith, (left, due, open_3, settles_3, soon, omega arith))
      ]
