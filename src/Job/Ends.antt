-- ===== src/Job/Ends.antt =====
-- `run` (cmd/init-spock/main.go) stops waiting by the deadline that `INIT_SPOCK_TIMEOUT` sets.
use pgedge_helm.Base.{
  ℕ, List, [], ◌∷◌, Option, some, ◌≡◌, ◌<◌, ◌≤◌, ◌*◌, refl, ap, ◌∙◌, arith, inl, inr,
}
use pgedge_helm.Base.Int.{pos}
use pgedge_helm.Base.Decimal.{decimal}
use pgedge_helm.Base.Maps.{insert}
use pgedge_helm.Base.Text.{Text, bytes, text_key}
use pgedge_helm.Config.{Config, Node, load}
use pgedge_helm.Resource.{Error, context}
use pgedge_helm.Io.{Result, ok, err, Result-cases, Waited-cases, HasDeadline, Waited, gave_up}
use pgedge_helm.Connections.{connect_pool}
use pgedge_helm.Connections.Ends.{wait_ready_ends}
use pgedge_helm.Readiness.{cnpg_gvr, label_selector, wait_for_clusters}
use pgedge_helm.Readiness.Ends.{wait_for_all_ends}
use pgedge_helm.Spock.Desired.{Conns}
use pgedge_helm.Job.{
  Outside, Failure, not_loaded, as_failure, connect_nodes, close_all, set_up, fresh, configure,
  timeout_set, run,
}
use pgedge_helm.Job.Timeout.{timeout}
use pgedge_helm.Job.Timeout.Bounds.{timeout_bounds}
use pgedge_helm.Job.Keeps.{
  Keeps, connect-keeps, wait_ready-keeps, connect_pool-keeps, wait_for_clusters-keeps,
}
use pgedge_helm.Job.Untouched.{Loaded-cases}

module _ {D : Type 0} (outside : Outside D) (Within : ℕ → D → Type 0)
    (keeps : (n : ℕ) → Keeps outside (Within n))
    (list_deadline : HasDeadline outside.kubernetes.ctx_err outside.kubernetes.wait Within)
    (connect_deadline : HasDeadline outside.pgx.ctx_err outside.pgx.wait Within) (fuel : ℕ) where
  wait_for_clusters_ends :
      (namespace app_name : Text) (n : ℕ) (d : D)
      → Within n d
      → n < 5 * fuel
      → (w : Waited) × (after : D) × (wait_for_clusters outside.kubernetes fuel namespace app_name d
          ≡ some (w, after))
  unfolding wait_for_clusters
  wait_for_clusters_ends namespace app_name n d h k =
      let r = outside.kubernetes.in_cluster_config d in
      elim (Result-cases r.0) [
        | inr (e, refused) ↦
            (gave_up (context (bytes "k8s in-cluster config") e), r.1, ground arith)
        | inl (c, made) ↦
            let q = outside.kubernetes.new_for_config c r.1 in
            elim (Result-cases q.0) [
              | inr (e, refused) ↦
                  (gave_up (context (bytes "k8s dynamic client") e), q.1, ground arith)
              | inl (client, ready) ↦
                  let h2 = (keeps n).calls.keeps_client c r.1 ((keeps n).calls.keeps_config d h) in
                  let (w, after, e) =
                    wait_for_all_ends outside.kubernetes client namespace app_name Within
                      list_deadline
                      (λ m.
                        (keeps m).calls.keeps_list client cnpg_gvr namespace
                          (label_selector app_name))
                      fuel n q.1 h2 k in
                  (w, after, ground arith)
            ]
      ]

  connect_nodes_ends :
      (cfg : Config) (ns : List Node) (conns : Conns) (opened : List ℕ) (n : ℕ) (d : D)
      → Within n d
      → n < 3 * fuel
      → (result : Result Conns) × (pools : List ℕ) × (after : D) × (connect_nodes outside fuel cfg
            ns conns opened d
          ≡ some (result, pools, after))
  unfolding connect_nodes
  connect_nodes_ends cfg [] conns opened n d h k = (ok conns, opened, d, refl)
  connect_nodes_ends cfg (node ∷ ns) conns opened n d h k =
      let (w, d1, e) =
        wait_ready_ends outside.pgx node.hostname node.internal_hostname cfg.db_name cfg.admin_user
          Within connect_deadline
          (λ m s. connect-keeps outside (Within m) (keeps m).calls _ cfg.db_name cfg.admin_user s)
          fuel n d h k in
      let h1 =
        wait_ready-keeps outside (Within n) (keeps n) fuel node.hostname node.internal_hostname
          cfg.db_name cfg.admin_user d h w d1 e in
      let r =
        connect_pool outside.pgx node.hostname node.internal_hostname cfg.db_name cfg.admin_user
          d1 in
      let h2 =
        connect_pool-keeps outside (Within n) (keeps n).calls node.hostname node.internal_hostname
          cfg.db_name cfg.admin_user d1 h1 in
      elim (Waited-cases w) [
        | inr (x, late) ↦ (err x, opened, d1, ground arith)
        | inl up ↦ elim (Result-cases r.0) [
          | inr (x, refused) ↦ (err x, opened, r.1, ground arith)
          | inl (pool, made) ↦
              let (result, pools, after, p) =
                connect_nodes_ends cfg ns (insert node.name pool conns) (pool ∷ opened) n r.1 h2
                  k in
              (result, pools, after, ground arith)
        ]
      ]

  configure_ends :
      (cfg : Config) (n : ℕ) (d : D)
      → Within n d
      → n < 3 * fuel
      → (result : Option Error) × (after : D) × (configure outside fuel cfg d
          ≡ some (result, after))
  unfolding configure
  configure_ends cfg n d h k =
      let (w, d1, e) = wait_for_clusters_ends cfg.namespace cfg.app_name n d h (omega arith) in
      let h1 =
        wait_for_clusters-keeps outside (Within n) (keeps n) fuel cfg.namespace cfg.app_name d h w
          d1 e in
      elim (Waited-cases w) [
        | inr (x, late) ↦ (some x, d1, ground arith)
        | inl up ↦
            let (result, pools, d2, p) = connect_nodes_ends cfg cfg.nodes [] [] n d1 h1 k in
            elim (Result-cases result) [
              | inr (x, refused) ↦ (some x, close_all outside pools d2, ground arith)
              | inl (conns, made) ↦
                  let (done, w) = set_up outside fuel cfg conns (fresh outside d2) in
                  (done, close_all outside pools w.databases, ground arith)
            ]
      ]

  -- `run` stops to wait, whatever the clusters and the nodes do, where `INIT_SPOCK_TIMEOUT` is a
  -- number of seconds from 1 to 9223372036, `WithTimeout` sets a deadline, and no call of the outside
  -- puts it off: `n / 3 + 1` rounds of fuel are enough for the loops of steps 1 and 2, and with them
  -- the job returns.
  pub run_ends :
      (n : ℕ)
      → 0 < n
      → n ≤ 9223372036
      → outside.around.getenv (bytes "INIT_SPOCK_TIMEOUT") ≡ decimal n
      → ((m : ℕ) (d : D) → Within m (outside.with_timeout (pos (m * 1000000000)) d))
      → n < 3 * fuel
      → (d : D)
      → (result : Option Failure) × (after : D) × (run outside fuel d ≡ some (result, after))
  unfolding run
  run_ends n h k set sets long d =
      elim (Loaded-cases (load outside.around (bytes "/config/pgedge.yaml"))) [
        | inr (x, refused) ↦ (some (not_loaded x), d, ground arith)
        | inl (cfg, made) ↦
            let (m, t, _, size) = timeout_bounds n h k in
            let p : timeout_set outside ≡ some (pos (m * 1000000000)) = ap timeout set ∙ t in
            let start = outside.with_timeout (pos (m * 1000000000)) d in
            let (result, d2, e) = configure_ends cfg m start (sets m d) (ground (arith, size)) in
            (as_failure result, outside.cancel d2, ground arith)
      ]
