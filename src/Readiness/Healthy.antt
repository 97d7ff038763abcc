-- ===== src/Readiness/Healthy.antt =====
-- How `waitForAll` (internal/cluster/cluster.go) ends.
use pgedge_helm.Base.{
  ℕ, zero, suc, ◌≡◌, refl, true, List, [], ◌∷◌, some, All, arith, Bool-cases, inl, inr,
}
use pgedge_helm.Base.Text.{Text, text_key, text_eq_iff}
use pgedge_helm.Io.{Result, ok, err, Result-cases, came_up}
use pgedge_helm.Readiness.{
  ClusterItem, Client, Kubernetes, cnpg_gvr, label_selector, healthy_phase, all_healthy, is_ready,
  wait_for_all, wait_for_clusters,
}

all_healthy-All :
    (items : List ClusterItem) → all_healthy items ≡ true → All (λ i. i.phase ≡ healthy_phase) items
unfolding all_healthy
all_healthy-All [] h = tt
all_healthy-All (item ∷ items) h =
    (ground (arith, text_eq_iff item.phase healthy_phase), all_healthy-All items (ground arith))

ready_items :
    (r : Result (List ClusterItem))
    → is_ready r ≡ true
    → (first : ClusterItem) × (others : List ClusterItem) × (r ≡ ok (first ∷ others))
      × All (λ i. i.phase ≡ healthy_phase) (first ∷ others)
unfolding is_ready
ready_items (err e) h = absurd (ground arith)
ready_items (ok []) h = absurd (ground arith)
ready_items (ok (item ∷ items)) h = (item, items, refl, all_healthy-All (item ∷ items) h)

module _ {S : Type 0} (kubernetes : Kubernetes S) (client : Client)
    (namespace app_name : Text) where
  -- What the last list said.
  pub record AllHealthy (after : S) : Type 0 where
    pub asked_at : S
    pub first : ClusterItem
    pub others : List ClusterItem
    pub listed :
        kubernetes.list client cnpg_gvr namespace (label_selector app_name) asked_at
        ≡ (ok (first ∷ others), after)
    pub healthy : All (λ i. i.phase ≡ healthy_phase) (first ∷ others)

  -- When `waitForAll` ends with success, the last that it did is to list the clusters: there was at
  -- least one, and all of them were healthy.
  pub wait_for_all-AllHealthy :
      (fuel : ℕ) (s after : S)
      → wait_for_all kubernetes fuel client namespace app_name s ≡ some (came_up, after)
      → AllHealthy after
  unfolding wait_for_all
  wait_for_all-AllHealthy zero s after h = absurd (ground arith)
  wait_for_all-AllHealthy (suc fuel) s after h =
      let r = kubernetes.list client cnpg_gvr namespace (label_selector app_name) s in
      elim (Bool-cases (is_ready r.0)) [
        | inl yes_ready ↦
            let (first, others, listed, healthy) = ready_items r.0 yes_ready in
            record {
              asked_at = s;
              first = first;
              others = others;
              listed = ground arith;
              healthy = healthy;
            }
        | inr not_ready ↦ wait_for_all-AllHealthy fuel (kubernetes.wait 5 r.1) after (ground arith)
      ]

pub wait_for_clusters-AllHealthy :
    {S : Type 0} (kubernetes : Kubernetes S) (fuel : ℕ) (namespace app_name : Text) (s after : S)
    → wait_for_clusters kubernetes fuel namespace app_name s ≡ some (came_up, after)
    → (client : Client) × AllHealthy kubernetes client namespace app_name after
unfolding wait_for_clusters
wait_for_clusters-AllHealthy kubernetes fuel namespace app_name s after e =
    let r = kubernetes.in_cluster_config s in
    elim (Result-cases r.0) [
      | inr (x, refused) ↦ absurd (ground arith)
      | inl (c, made) ↦
          let q = kubernetes.new_for_config c r.1 in
          elim (Result-cases q.0) [
            | inr (x, refused) ↦ absurd (ground arith)
            | inl (k, ready) ↦ (
              k,
              wait_for_all-AllHealthy kubernetes k namespace app_name fuel q.1 after (ground arith),
            )
          ]
    ]
