-- ===== src/Readiness/Tests.antt =====
-- Two clusters, of which one is healthy later. The state is the seconds to the deadline.
use mathlib.Core.List.{Permᴰ}
use pgedge_helm.Base.{
  ℕ, zero, suc, ◌-◌, ◌≤◌, ◌≡◌, ◌≢◌, refl, List, [], ◌∷◌, Option, some, none, Perm, arith,
}
use pgedge_helm.Base.Text.{Text, bytes, text_eq, sort_texts}
use pgedge_helm.Base.Sorting.{IsSorted}
use pgedge_helm.Io.{ok, HasDeadline, Waited}
use pgedge_helm.Resource.{Error, message}
use pgedge_helm.Readiness.{ClusterItem, Kubernetes, healthy_phase, wait_for_all, get_clusters}
use pgedge_helm.Readiness.Healthy.{AllHealthy, wait_for_all-AllHealthy}
use pgedge_helm.Readiness.Ends.{wait_for_all_ends}
use pgedge_helm.Readiness.Names.{names_of, get_clusters-IsCanonical}

abbrev cluster : Text → Text → ClusterItem
cluster name phase = record { name = name; phase = phase }

-- Healthy within the last ten seconds.
abbrev listing : ℕ → List ClusterItem
listing left = elim (left - 10) [
  | zero ↦ cluster (bytes "n2") healthy_phase ∷ cluster (bytes "n1") healthy_phase ∷ []
  | suc _ ↦ cluster (bytes "n2") healthy_phase ∷ cluster (bytes "n1") (bytes "Setting up") ∷ []
]

abbrev deadline_exceeded : ℕ → Option Error
deadline_exceeded zero = some (message (bytes "context deadline exceeded"))
deadline_exceeded (suc n) = none

abbrev slow : Kubernetes ℕ
slow = record {
  in_cluster_config = λ n. (ok 0, n);
  new_for_config = λ c n. (ok c, n);
  list = λ client gvr namespace selector n. (ok (listing n), n);
  ctx_err = deadline_exceeded;
  wait = λ seconds n. n - seconds;
}

wait_for_all-AllHealthy_example : AllHealthy slow 0 (bytes "default") (bytes "pgedge") 10
unfolding wait_for_all text_eq
wait_for_all-AllHealthy_example =
    wait_for_all-AllHealthy slow 0 (bytes "default") (bytes "pgedge") 2 15 10 refl

abbrev Within : ℕ → ℕ → Type 0
Within n left = left ≤ n

ends_at_zero : (left : ℕ) → left ≤ 0 → deadline_exceeded left ≢ none
ends_at_zero zero h e = absurd (ground arith)
ends_at_zero (suc left) h e = absurd (omega arith)

slow-HasDeadline : HasDeadline slow.ctx_err slow.wait Within
slow-HasDeadline = record {
  wait_ticks = λ seconds n left h. omega (arith, h);
  has_ended = ends_at_zero;
}

wait_for_all_ends_example :
    (w : Waited) × (after : ℕ) × (wait_for_all slow 7 0 (bytes "default") (bytes "pgedge") 33
      ≡ some (w, after))
wait_for_all_ends_example =
    wait_for_all_ends slow 0 (bytes "default") (bytes "pgedge") Within slow-HasDeadline (λ n s h. h)
      7 34 33 (omega arith) (omega arith)

abbrev reversed : List ClusterItem
reversed = cluster (bytes "n1") healthy_phase ∷ cluster (bytes "n2") healthy_phase ∷ []

get_clusters-IsCanonical_example :
    (names : List Text) × (get_clusters slow 0 (bytes "default") (bytes "pgedge") 3 ≡ (ok names, 3))
    × IsSorted names
    × Perm names (names_of (listing 3))
    × (names ≡ sort_texts (names_of reversed))
get_clusters-IsCanonical_example =
    get_clusters-IsCanonical slow 0 (bytes "default") (bytes "pgedge") 3 3 (listing 3) reversed refl
      ∣ Permᴰ.swap refl refl ∣₁
