-- ===== src/Job/Success.antt =====
-- When `run` (cmd/init-spock/main.go) gets to its steps 3 and 4.
use pgedge_helm.Base.{
  ℕ, List, [], ◌∷◌, some, ◌+◌, ◌-◌, ◌*◌, ◌<◌, ◌≡◌, refl, true, arith, inl, inr, All, Option-cases,
}
use pgedge_helm.Base.Maps.{insert}
use pgedge_helm.Base.Text.{bytes, text_key}
use pgedge_helm.Config.{Config, Node, load, loaded}
use pgedge_helm.Io.{ok, StaysOpen, OnTime, came_up}
use pgedge_helm.Connections.{connect_host, connect_pool}
use pgedge_helm.Connections.Ends.{attempt}
use pgedge_helm.Connections.Success.{wait_ready_in_time}
use pgedge_helm.Readiness.{cnpg_gvr, label_selector, is_ready, wait_for_clusters}
use pgedge_helm.Readiness.Success.{wait_for_all_in_time}
use pgedge_helm.Spock.Desired.{Conns}
use pgedge_helm.Job.{
  Outside, as_failure, connect_nodes, close_all, set_up, fresh, configure, timeout_set, started,
  run,
}
use pgedge_helm.Job.Keeps.{KeepsCalls, Keeps, connect-keeps, connect_pool-keeps}
use pgedge_helm.Job.Connected.{HasPools, connect_nodes_lem}

abbrev pub IsAccepted : {D : Type 0} → Outside D → Config → (Up : ℕ → D → Type 0) → Node → Type 0
IsAccepted {D} outside cfg Up n =
    (d : D)
    → Up 0 d
    → (conn : ℕ) × ((attempt outside.pgx n.hostname n.internal_hostname cfg.db_name cfg.admin_user
          d).0
        ≡ ok conn)

abbrev pub IsPooled : {D : Type 0} → Outside D → Config → Node → Type 0
IsPooled {D} outside cfg n =
    (d : D)
    → (pool : ℕ) × ((connect_pool outside.pgx n.hostname n.internal_hostname cfg.db_name
          cfg.admin_user d).0
        ≡ ok pool)

-- `Open n d` says that at `d` the deadline of the context is `n` seconds away at least, and `Up m d`
-- that `m` seconds after `d`, and from then on, the site is up: there are clusters and all are
-- healthy, and each node takes connections. Calls put off neither, and a pool can be made at any
-- time, since it connects later.
pub record ComesUp {D : Type 0} (outside : Outside D) (cfg : Config) (Open Up : ℕ → D → Type 0)
    : Type 0 where
  pub list_open : StaysOpen outside.kubernetes.ctx_err outside.kubernetes.wait Open
  pub connect_open : StaysOpen outside.pgx.ctx_err outside.pgx.wait Open
  pub keeps_open : (n : ℕ) → KeepsCalls outside (Open n)
  pub keeps_up : (m : ℕ) → KeepsCalls outside (Up m)
  pub wait_up :
      (seconds m : ℕ) (d : D) → Up m d → Up (m - seconds) (outside.kubernetes.wait seconds d)
  pub pause_up : (seconds m : ℕ) (d : D) → Up m d → Up (m - seconds) (outside.pgx.wait seconds d)
  pub has_config : (d : D) → (c : ℕ) × ((outside.kubernetes.in_cluster_config d).0 ≡ ok c)
  pub has_client :
      (c : ℕ) (d : D) → (client : ℕ) × ((outside.kubernetes.new_for_config c d).0 ≡ ok client)
  pub is_settled :
      (client : ℕ) (d : D)
      → Up 0 d
      → is_ready
          (outside.kubernetes.list client cnpg_gvr cfg.namespace (label_selector cfg.app_name) d).0
        ≡ true
  pub is_accepted : All (IsAccepted outside cfg Up) cfg.nodes
  pub is_pooled : All (IsPooled outside cfg) cfg.nodes

keeps_nothing : {D : Type 0} (outside : Outside D) → Keeps outside (λ d. Unit {0})
keeps_nothing outside = record {
  calls = record {
    keeps_config = λ d h. tt;
    keeps_client = λ c d h. tt;
    keeps_list = λ client gvr namespace selector d h. tt;
    keeps_key_pair = λ cert key d h. tt;
    keeps_parse = λ s d h. tt;
    keeps_parse_pool = λ s d h. tt;
    keeps_connect = λ c d h. tt;
    keeps_close = λ conn d h. tt;
    keeps_pool = λ c d h. tt;
    keeps_close_pool = λ pool d h. tt;
  };
  keeps_wait = λ seconds d h. tt;
  keeps_pause = λ seconds d h. tt;
  keeps_timeout = λ t d h. tt;
  keeps_cancel = λ d h. tt;
}

module _ {D : Type 0} (outside : Outside D) (cfg : Config) (Open Up : ℕ → D → Type 0)
    (comes_up : ComesUp outside cfg Open Up) (fuel m : ℕ) (enough : m + 4 < 3 * fuel) where
  wait_for_clusters_succeeds :
      (d : D)
      → OnTime Open Up 4 m d
      → (after : D) × (wait_for_clusters outside.kubernetes fuel cfg.namespace cfg.app_name d
          ≡ some (came_up, after))
        × OnTime Open Up 4 m after
  unfolding wait_for_clusters
  wait_for_clusters_succeeds d (n, due, opens, ups, soon, sooner) =
      let r = outside.kubernetes.in_cluster_config d in
      let (c, made) = comes_up.has_config d in
      let q = outside.kubernetes.new_for_config c r.1 in
      let (client, ready) = comes_up.has_client c r.1 in
      let open_1 = (comes_up.keeps_open n).keeps_config d opens in
      let up_1 = (comes_up.keeps_up due).keeps_config d ups in
      let (after, e, (left, k, open_2, up_2, on_time, over)) =
        wait_for_all_in_time outside.kubernetes client cfg.namespace cfg.app_name Open Up
          comes_up.list_open (comes_up.is_settled client) (comes_up.wait_up 5)
          (λ a b s h l. (
            (comes_up.keeps_open a).keeps_list client cnpg_gvr cfg.namespace
                (label_selector cfg.app_name) s h,
            (comes_up.keeps_up b).keeps_list client cnpg_gvr cfg.namespace
                (label_selector cfg.app_name) s l,
          ))
          fuel n due q.1 ((comes_up.keeps_open n).keeps_client c r.1 open_1)
          ((comes_up.keeps_up due).keeps_client c r.1 up_1) soon (omega arith) in
      (after, ground arith, (left, k, open_2, up_2, on_time, omega arith))

  attempt-keeps :
      (P : D → Type 0)
      → KeepsCalls outside P
      → (n : Node) (d : D) → P d
      → P (attempt outside.pgx n.hostname n.internal_hostname cfg.db_name cfg.admin_user d).1
  attempt-keeps P keeps n d h =
      connect-keeps outside P keeps (connect_host n.hostname n.internal_hostname) cfg.db_name
        cfg.admin_user d h

  pool-keeps :
      (P : D → Type 0)
      → KeepsCalls outside P
      → (n : Node) (d : D) → P d
      → P (connect_pool outside.pgx n.hostname n.internal_hostname cfg.db_name cfg.admin_user d).1
  pool-keeps P keeps n d h =
      connect_pool-keeps outside P keeps n.hostname n.internal_hostname cfg.db_name cfg.admin_user d
        h

  connect_nodes_succeeds :
      (ns : List Node) (conns : Conns) (opened : List ℕ) (d : D)
      → OnTime Open Up 4 m d
      → All (IsAccepted outside cfg Up) ns
      → All (IsPooled outside cfg) ns
      → (made : Conns) × (pools : List ℕ) × (after : D) × (connect_nodes outside fuel cfg ns conns
            opened d
          ≡ some (ok made, pools, after))
  unfolding connect_nodes
  connect_nodes_succeeds [] conns opened d h accepts pooled = (conns, opened, d, refl)
  connect_nodes_succeeds (node ∷ ns) conns opened d (n, due, opens, ups, soon, sooner)
        (accepted, accepts) (makes, pooled) =
      let (d1, e, (left, k, open_1, up_1, on_time, over)) =
        wait_ready_in_time outside.pgx node.hostname node.internal_hostname cfg.db_name
          cfg.admin_user Open Up comes_up.connect_open accepted (comes_up.pause_up 3)
          (λ a b s h l. (
            attempt-keeps (Open a) (comes_up.keeps_open a) node s h,
            attempt-keeps (Up b) (comes_up.keeps_up b) node s l,
          ))
          (λ conn a b s h l. (
            (comes_up.keeps_open a).keeps_close conn s h,
            (comes_up.keeps_up b).keeps_close conn s l,
          ))
          4 fuel n due d (omega arith) opens ups soon (omega arith) in
      let r =
        connect_pool outside.pgx node.hostname node.internal_hostname cfg.db_name cfg.admin_user
          d1 in
      let (pool, p) = makes d1 in
      let (made, all, after, q) =
        connect_nodes_succeeds ns (insert node.name pool conns) (pool ∷ opened) r.1
          (
            left,
            k,
            pool-keeps (Open left) (comes_up.keeps_open left) node d1 open_1,
            pool-keeps (Up k) (comes_up.keeps_up k) node d1 up_1,
            on_time,
            omega arith,
          )
          accepts pooled in
      (made, all, after, ground arith)

  configure_succeeds :
      (d : D)
      → OnTime Open Up 4 m d
      → (conns : Conns) × (pools : List ℕ) × (connected : D) × HasPools outside fuel cfg cfg.nodes
          (ok conns)
        × (let (result, w) = set_up outside fuel cfg conns (fresh outside connected) in
            configure outside fuel cfg d ≡ some (result, close_all outside pools w.databases))
  unfolding configure
  configure_succeeds d h =
      let (d1, e, on_time) = wait_for_clusters_succeeds d h in
      let (conns, pools, d2, p) =
        connect_nodes_succeeds cfg.nodes [] [] d1 on_time comes_up.is_accepted comes_up.is_pooled in
      let (_, _, has_pools) =
        connect_nodes_lem outside fuel cfg (λ x. Unit) (keeps_nothing outside) cfg.nodes [] [] d1 tt
          (ok conns) pools d2 p in
      (conns, pools, d2, has_pools, ground arith)

  -- `run` gets past its steps 1 and 2, and its error is that of the steps 3 and 4, where the
  -- configuration can be loaded, the site comes up `m` seconds after the start and stays up
  -- (`ComesUp`), and the deadline, if there is one, is more than four seconds later. Then each node of
  -- the configuration has a pool. A client and pools can be made, calls of the outside put off neither
  -- the deadline nor the site, and `(m + 4) / 3 + 1` rounds of fuel are enough.
  pub run_succeeds :
      (n : ℕ) (d : D)
      → load outside.around (bytes "/config/pgedge.yaml") ≡ loaded cfg
      → Open n (started outside (timeout_set outside) d)
      → Up m (started outside (timeout_set outside) d)
      → m + 4 < n
      → (conns : Conns) × (connected after : D) × HasPools outside fuel cfg cfg.nodes (ok conns)
        × (run outside fuel d
            ≡ some (as_failure (set_up outside fuel cfg conns (fresh outside connected)).0, after))
  unfolding run
  run_succeeds n d is_loaded opens ups in_time =
      let start = started outside (timeout_set outside) d in
      let (conns, pools, connected, has_pools, e) =
        configure_succeeds start (n, m, opens, ups, inr in_time, omega arith) in
      let left =
        close_all outside pools
          (set_up outside fuel cfg conns (fresh outside connected)).1.databases in
      elim (Option-cases (timeout_set outside)) [
        | inl endless ↦ (conns, connected, left, has_pools, ground arith)
        | inr (t, set) ↦ (conns, connected, outside.cancel left, has_pools, ground arith)
      ]
