-- ===== src/Job/Untouched.antt =====
-- What `run` (cmd/init-spock/main.go) has seen before it changes a database.
use pgedge_helm.Base.{
  ℕ, List, [], Option, some, none, ◌≡◌, ◌≢◌, true, refl, subst, arith, inl, inr, ◌⊎◌, Option-cases,
  All,
}
use pgedge_helm.Base.Int.{ℤ}
use pgedge_helm.Base.Maps.{contains}
use pgedge_helm.Base.Text.{bytes, text_key}
use pgedge_helm.Config.{Config, Loaded, load, loaded}
use pgedge_helm.Config as Config
use pgedge_helm.Resource.{Error}
use pgedge_helm.Io.{Result, ok, err, came_up, gave_up}
use pgedge_helm.Readiness.{Client, wait_for_clusters}
use pgedge_helm.Readiness.Healthy.{AllHealthy, wait_for_clusters-AllHealthy}
use pgedge_helm.Spock.Desired.{Conns}
use pgedge_helm.Job.{
  Outside, Failure, as_failure, connect_nodes, close_all, set_up, fresh, configure, timeout_set,
  started, run, ended,
}
use pgedge_helm.Job.Keeps.{Keeps, wait_for_clusters-keeps, close_all-keeps}
use pgedge_helm.Job.Connected.{wait-cases, connect_nodes_lem}

-- Three ways for the loop over the nodes to end.
pub connect-cases :
    {D : Type 0} (r : Option (Result Conns × List ℕ × D))
    → (r ≡ none)
      ⊎ ((e : Error) × (pools : List ℕ) × (d : D) × (r ≡ some (err e, pools, d)))
      ⊎ ((conns : Conns) × (pools : List ℕ) × (d : D) × (r ≡ some (ok conns, pools, d)))
connect-cases none = inl refl
connect-cases (some (err e, pools, d)) = inr (inl (e, pools, d, refl))
connect-cases (some (ok conns, pools, d)) = inr (inr (conns, pools, d, refl))

pub Loaded-cases :
    {A : Type 0} (r : Loaded A)
    → ((a : A) × (r ≡ loaded a)) ⊎ ((e : Config.Error) × (r ≡ Config.failed e))
Loaded-cases (loaded a) = inl (a, refl)
Loaded-cases (Config.failed e) = inr (e, refl)

module _ {D : Type 0} (outside : Outside D) (P : D → Type 0) (keeps : Keeps outside P)
    (fuel : ℕ) where
  -- The clusters were healthy, each node has a pool of connections, and then the databases were
  -- changed, from a state of which `P` holds.
  pub record Prepared (cfg : Config) (result : Option Error) : Type 0 where
    pub healthy_at : D
    pub client : Client
    pub healthy : AllHealthy outside.kubernetes client cfg.namespace cfg.app_name healthy_at
    pub conns : Conns
    pub have_pools : All (λ n. contains n.name conns ≡ true) cfg.nodes
    pub begun : D
    pub kept : P begun
    pub is_result : (set_up outside fuel cfg conns (fresh outside begun)).0 ≡ result

  configure-Prepared :
      (cfg : Config) (d : D)
      → P d
      → (result : Option Error) (after : D) → configure outside fuel cfg d ≡ some (result, after)
      → (P after × (result ≢ none)) ⊎ Prepared cfg result
  unfolding configure
  configure-Prepared cfg d h result after e =
      let waited = wait_for_clusters outside.kubernetes fuel cfg.namespace cfg.app_name d in
      let keeps_waiting =
        wait_for_clusters-keeps outside P keeps fuel cfg.namespace cfg.app_name d h in
      elim (wait-cases waited) [
        | inl out ↦ absurd (ground arith)
        | inr (inr (x, d1, late)) ↦
            let p : d1 ≡ after = ground arith in
            inl (subst P p (keeps_waiting (gave_up x) d1 late), λ q. absurd (ground arith))
        | inr (inl (d1, ready)) ↦
            let (client, healthy) =
              wait_for_clusters-AllHealthy outside.kubernetes fuel cfg.namespace cfg.app_name d d1
                ready in
            let h1 = keeps_waiting came_up d1 ready in
            let connected = connect_nodes outside fuel cfg cfg.nodes [] [] d1 in
            elim (connect-cases connected) [
              | inl out ↦ absurd (ground arith)
              | inr (inl (x, pools, d2, refused)) ↦
                  let (h2, _, _) =
                    connect_nodes_lem outside fuel cfg P keeps cfg.nodes [] [] d1 h1 (err x) pools
                      d2 refused in
                  let p : close_all outside pools d2 ≡ after = ground arith in
                  inl (
                    subst P p (close_all-keeps outside P keeps pools d2 h2),
                    λ q. absurd (ground arith),
                  )
              | inr (inr (conns, pools, d2, made)) ↦
                  let (h2, _, have_pools) =
                    connect_nodes_lem outside fuel cfg P keeps cfg.nodes [] [] d1 h1 (ok conns)
                      pools d2 made in
                  inr (record {
                    healthy_at = d1;
                    client = client;
                    healthy = healthy;
                    conns = conns;
                    have_pools = have_pools;
                    begun = d2;
                    kept = h2;
                    is_result = ground arith;
                  })
            ]
      ]

  started-keeps : (t : Option ℤ) (d : D) → P d → P (started outside t d)
  started-keeps none d h = h
  started-keeps (some t) d h = keeps.keeps_timeout t d h

  ended_lem :
      (t : Option ℤ) (left_with : Option Error) (d : D) (result : Option Failure) (after : D)
      → ended outside t (some (left_with, d)) ≡ some (result, after)
      → (result ≡ as_failure left_with) × (P d → P after)
  ended_lem none left_with d result after e =
      let p : d ≡ after = ground arith in (ground arith, subst P p)
  ended_lem (some t) left_with d result after e =
      let p : outside.cancel d ≡ after = ground arith in
      (ground arith, λ h. subst P p (keeps.keeps_cancel d h))

  ended-none :
      (t : Option ℤ) (result : Option Failure) (after : D)
      → ended outside t none ≢ some (result, after)
  ended-none none result after e = absurd (ground arith)
  ended-none (some t) result after e = absurd (ground arith)

  -- How `run` ends, where a property of the databases is kept by all but the statements of steps 3 and
  -- 4: either it returns an error and the property still holds, or the configuration was loaded, a
  -- list of the clusters had at least one and all were healthy, each node of the configuration had a
  -- pool of connections, the property held before step 3, and the result is that of steps 3 and 4.
  pub run-Prepared :
      (d : D)
      → P d
      → (result : Option Failure) (after : D) → run outside fuel d ≡ some (result, after)
      → (P after × (result ≢ none))
        ⊎ ((cfg : Config) × (left_with : Option Error) × (load outside.around
                (bytes "/config/pgedge.yaml")
              ≡ loaded cfg)
            × (result ≡ as_failure left_with)
            × Prepared cfg left_with)
  unfolding run
  run-Prepared d h result after e =
      elim (Loaded-cases (load outside.around (bytes "/config/pgedge.yaml"))) [
        | inr (x, refused) ↦
            let p : d ≡ after = ground arith in inl (subst P p h, λ q. absurd (ground arith))
        | inl (cfg, made) ↦
            let t = timeout_set outside in
            let start = started outside t d in
            let h0 = started-keeps t d h in
            elim (Option-cases (configure outside fuel cfg start)) [
              | inl out ↦ absurd (ground (arith, ended-none t result after))
              | inr ((left_with, d2), left) ↦
                  let (p, k) = ended_lem t left_with d2 result after (ground arith) in
                  elim (configure-Prepared cfg start h0 left_with d2 left) [
                    | inl (h2, bad) ↦
                        inl (k h2, λ q. absurd (ground (arith, Option-cases left_with)))
                    | inr prepared ↦ inr (cfg, left_with, made, p, prepared)
                  ]
            ]
      ]
