-- ===== src/Readiness/Ends.antt =====
-- `waitForAll` (internal/cluster/cluster.go) ends by the deadline of its context.
use pgedge_helm.Base.{
  ℕ, zero, suc, ◌-◌, ◌*◌, ◌<◌, ◌≡◌, some, arith, Bool-cases, Option-cases, inl, inr,
}
use pgedge_helm.Base.Text.{Text, bytes}
use pgedge_helm.Io.{HasDeadline, not_yet, Waited, came_up, gave_up}
use pgedge_helm.Resource.{context}
use pgedge_helm.Readiness.{Client, Kubernetes, cnpg_gvr, label_selector, is_ready, wait_for_all}

module _ {S : Type 0} (kubernetes : Kubernetes S) (client : Client) (namespace app_name : Text)
    (Within : ℕ → S → Type 0) (has_deadline : HasDeadline kubernetes.ctx_err kubernetes.wait Within)
    (list_keeps : (n : ℕ) (s : S)
      → Within n s
      → Within n (kubernetes.list client cnpg_gvr namespace (label_selector app_name) s).1) where
  -- `waitForAll` ends, whatever the clusters do, where the context has a deadline and to list the
  -- clusters does not put it off: it polls every 5 seconds, and one poll more than fit in the time to
  -- the deadline is enough.
  pub wait_for_all_ends :
      (fuel n : ℕ) (s : S)
      → Within n s
      → n < 5 * fuel
      → (w : Waited) × (after : S) × (wait_for_all kubernetes fuel client namespace app_name s
          ≡ some (w, after))
  unfolding wait_for_all
  wait_for_all_ends zero n s h k = absurd (omega arith)
  wait_for_all_ends (suc fuel) n s h k =
      let r = kubernetes.list client cnpg_gvr namespace (label_selector app_name) s in
      let s2 = kubernetes.wait 5 r.1 in
      let soon = has_deadline.wait_ticks 5 n r.1 (list_keeps n s h) in
      elim (Bool-cases (is_ready r.0)) [
        | inl yes_ready ↦ (came_up, r.1, ground arith)
        | inr not_ready ↦ elim (Option-cases (kubernetes.ctx_err s2)) [
          | inr (e, ended) ↦
              (gave_up (context (bytes "timed out waiting for CNPG clusters") e), s2, ground arith)
          | inl going ↦
              let later : 5 < n = not_yet Within has_deadline soon going in
              let (w, after, e) = wait_for_all_ends fuel (n - 5) s2 soon (omega arith) in
              (w, after, ground arith)
        ]
      ]
