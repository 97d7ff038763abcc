-- ===== src/Job/Keeps.antt =====
-- What cmd/init-spock leaves as it is while it waits and connects.
use pgedge_helm.Base.{
  ℕ, List, [], ◌∷◌, some, ◌≡◌, sym, subst, zero, suc, arith, inl, inr, Bool-cases, Option-cases,
}
use pgedge_helm.Base.Text.{Text}
use pgedge_helm.Base.Int.{ℤ}
use pgedge_helm.Io.{Result-cases, Waited}
use pgedge_helm.Connections.{
  ConnConfig, PoolConfig, connect_host, conn_str, default_cert_path, default_key_path, connect,
  build_conn_config, build_pool_config, connect_pool, wait_ready,
}
use pgedge_helm.Readiness.{
  GroupVersionResource, cnpg_gvr, label_selector, is_ready, wait_for_all, wait_for_clusters,
}
use pgedge_helm.Job.{Outside, close_all}

-- A property of the state that the Kubernetes API and the making of connections keep.
pub record KeepsCalls {D : Type 0} (outside : Outside D) (P : D → Type 0) : Type 0 where
  pub keeps_config : (d : D) → P d → P (outside.kubernetes.in_cluster_config d).1
  pub keeps_client : (c : ℕ) (d : D) → P d → P (outside.kubernetes.new_for_config c d).1
  pub keeps_list :
      (client : ℕ) (gvr : GroupVersionResource) (namespace selector : Text) (d : D)
      → P d
      → P (outside.kubernetes.list client gvr namespace selector d).1
  pub keeps_key_pair : (cert key : Text) (d : D) → P d → P (outside.pgx.load_key_pair cert key d).1
  pub keeps_parse : (s : Text) (d : D) → P d → P (outside.pgx.parse_config s d).1
  pub keeps_parse_pool : (s : Text) (d : D) → P d → P (outside.pgx.parse_pool_config s d).1
  pub keeps_connect : (c : ConnConfig) (d : D) → P d → P (outside.pgx.connect_config c d).1
  pub keeps_close : (conn : ℕ) (d : D) → P d → P (outside.pgx.close conn d)
  pub keeps_pool : (c : PoolConfig) (d : D) → P d → P (outside.pgx.new_pool c d).1
  pub keeps_close_pool : (pool : ℕ) (d : D) → P d → P (outside.pgx.close_pool pool d)

-- Waiting and the limits of the context keep it too.
pub record Keeps {D : Type 0} (outside : Outside D) (P : D → Type 0) : Type 0 where
  pub calls : KeepsCalls outside P
  pub keeps_wait : (seconds : ℕ) (d : D) → P d → P (outside.kubernetes.wait seconds d)
  pub keeps_pause : (seconds : ℕ) (d : D) → P d → P (outside.pgx.wait seconds d)
  pub keeps_timeout : (t : ℤ) (d : D) → P d → P (outside.with_timeout t d)
  pub keeps_cancel : (d : D) → P d → P (outside.cancel d)

module _ {D : Type 0} (outside : Outside D) (P : D → Type 0) (keeps : KeepsCalls outside P) where
  -- Where a call stops, by the calls in it.
  build_conn_config-keeps :
      (host db_name user cert key : Text) (d : D)
      → P d
      → P (build_conn_config outside.pgx host db_name user cert key d).1
  unfolding build_conn_config
  build_conn_config-keeps host db_name user cert key d h =
      let r = outside.pgx.load_key_pair cert key d in
      let q = outside.pgx.parse_config (conn_str host db_name user) r.1 in
      let made = build_conn_config outside.pgx host db_name user cert key d in
      let loads = keeps.keeps_key_pair cert key d h in
      elim (Result-cases r.0) [
        | inr (e, refused) ↦ let p : made.1 ≡ r.1 = ground arith in subst P (sym p) loads
        | inl (c, e) ↦
            let p : made.1 ≡ q.1 = ground (arith, Result-cases q.0) in
            subst P (sym p) (keeps.keeps_parse (conn_str host db_name user) r.1 loads)
      ]

  pub connect-keeps :
      (host db_name user : Text) (d : D) → P d → P (connect outside.pgx host db_name user d).1
  unfolding connect
  connect-keeps host db_name user d h =
      let r =
        build_conn_config outside.pgx host db_name user default_cert_path default_key_path d in
      let made = connect outside.pgx host db_name user d in
      let builds =
        build_conn_config-keeps host db_name user default_cert_path default_key_path d h in
      elim (Result-cases r.0) [
        | inr (e, refused) ↦ let p : made.1 ≡ r.1 = ground arith in subst P (sym p) builds
        | inl (c, e) ↦
            let p : made.1 ≡ (outside.pgx.connect_config c r.1).1 = ground arith in
            subst P (sym p) (keeps.keeps_connect c r.1 builds)
      ]

  build_pool_config-keeps :
      (hostname internal_hostname db_name user cert key : Text) (d : D)
      → P d
      → P (build_pool_config outside.pgx hostname internal_hostname db_name user cert key d).1
  unfolding build_pool_config
  build_pool_config-keeps hostname internal_hostname db_name user cert key d h =
      let host = connect_host hostname internal_hostname in
      let r = build_conn_config outside.pgx host db_name user cert key d in
      let made = build_pool_config outside.pgx hostname internal_hostname db_name user cert key d in
      let builds = build_conn_config-keeps host db_name user cert key d h in
      elim (Result-cases r.0) [
        | inr (e, refused) ↦ let p : made.1 ≡ r.1 = ground arith in subst P (sym p) builds
        | inl (c, e) ↦
            let q = outside.pgx.parse_pool_config c.conn_string r.1 in
            let p : made.1 ≡ q.1 = ground (arith, Result-cases q.0) in
            subst P (sym p) (keeps.keeps_parse_pool c.conn_string r.1 builds)
      ]

  pub connect_pool-keeps :
      (hostname internal_hostname db_name user : Text) (d : D)
      → P d
      → P (connect_pool outside.pgx hostname internal_hostname db_name user d).1
  unfolding connect_pool
  connect_pool-keeps hostname internal_hostname db_name user d h =
      let r =
        build_pool_config outside.pgx hostname internal_hostname db_name user default_cert_path
          default_key_path d in
      let made = connect_pool outside.pgx hostname internal_hostname db_name user d in
      let builds =
        build_pool_config-keeps hostname internal_hostname db_name user default_cert_path
          default_key_path d h in
      elim (Result-cases r.0) [
        | inr (e, refused) ↦ let p : made.1 ≡ r.1 = ground arith in subst P (sym p) builds
        | inl (c, e) ↦
            let p : made.1 ≡ (outside.pgx.new_pool c r.1).1 = ground arith in
            subst P (sym p) (keeps.keeps_pool c r.1 builds)
      ]

module _ {D : Type 0} (outside : Outside D) (P : D → Type 0) (keeps : Keeps outside P) where
  pub wait_ready-keeps :
      (fuel : ℕ) (hostname internal_hostname db_name user : Text) (d : D)
      → P d
      → (w : Waited) (after : D)
      → wait_ready outside.pgx fuel hostname internal_hostname db_name user d ≡ some (w, after)
      → P after
  unfolding wait_ready
  wait_ready-keeps zero hostname internal_hostname db_name user d h w after e =
      absurd (ground arith)
  wait_ready-keeps (suc fuel) hostname internal_hostname db_name user d h w after e =
      let host = connect_host hostname internal_hostname in
      let r = connect outside.pgx host db_name user d in
      let d2 = outside.pgx.wait 3 r.1 in
      let kept = connect-keeps outside P keeps.calls host db_name user d h in
      let paused = keeps.keeps_pause 3 r.1 kept in
      elim (Result-cases r.0) [
        | inl (conn, connected) ↦
            let p : after ≡ outside.pgx.close conn r.1 = ground arith in
            subst P (sym p) (keeps.calls.keeps_close conn r.1 kept)
        | inr (_, refused) ↦ elim (Option-cases (outside.pgx.ctx_err d2)) [
          | inr (x, ended) ↦ let p : after ≡ d2 = ground arith in subst P (sym p) paused
          | inl going ↦
              wait_ready-keeps fuel hostname internal_hostname db_name user d2 paused w after
                (ground arith)
        ]
      ]

  wait_for_all-keeps :
      (fuel client : ℕ) (namespace app_name : Text) (d : D)
      → P d
      → (w : Waited) (after : D)
      → wait_for_all outside.kubernetes fuel client namespace app_name d ≡ some (w, after)
      → P after
  unfolding wait_for_all
  wait_for_all-keeps zero client namespace app_name d h w after e = absurd (ground arith)
  wait_for_all-keeps (suc fuel) client namespace app_name d h w after e =
      let r = outside.kubernetes.list client cnpg_gvr namespace (label_selector app_name) d in
      let d2 = outside.kubernetes.wait 5 r.1 in
      let listed = keeps.calls.keeps_list client cnpg_gvr namespace (label_selector app_name) d h in
      let paused = keeps.keeps_wait 5 r.1 listed in
      elim (Bool-cases (is_ready r.0)) [
        | inl yes_ready ↦ let p : after ≡ r.1 = ground arith in subst P (sym p) listed
        | inr not_ready ↦ elim (Option-cases (outside.kubernetes.ctx_err d2)) [
          | inr (x, ended) ↦ let p : after ≡ d2 = ground arith in subst P (sym p) paused
          | inl going ↦
              wait_for_all-keeps fuel client namespace app_name d2 paused w after (ground arith)
        ]
      ]

  pub wait_for_clusters-keeps :
      (fuel : ℕ) (namespace app_name : Text) (d : D)
      → P d
      → (w : Waited) (after : D)
      → wait_for_clusters outside.kubernetes fuel namespace app_name d ≡ some (w, after)
      → P after
  unfolding wait_for_clusters
  wait_for_clusters-keeps fuel namespace app_name d h w after e =
      let r = outside.kubernetes.in_cluster_config d in
      let configured = keeps.calls.keeps_config d h in
      elim (Result-cases r.0) [
        | inr (x, refused) ↦ let p : after ≡ r.1 = ground arith in subst P (sym p) configured
        | inl (c, made) ↦
            let q = outside.kubernetes.new_for_config c r.1 in
            let connected = keeps.calls.keeps_client c r.1 configured in
            elim (Result-cases q.0) [
              | inr (x, refused) ↦ let p : after ≡ q.1 = ground arith in subst P (sym p) connected
              | inl (k, ready) ↦
                  wait_for_all-keeps fuel k namespace app_name q.1 connected w after (ground arith)
            ]
      ]

  pub close_all-keeps : (pools : List ℕ) (d : D) → P d → P (close_all outside pools d)
  unfolding close_all
  close_all-keeps [] d h = h
  close_all-keeps (pool ∷ pools) d h =
      close_all-keeps pools (outside.pgx.close_pool pool d) (keeps.calls.keeps_close_pool pool d h)
