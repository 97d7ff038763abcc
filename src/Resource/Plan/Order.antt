-- ===== src/Resource/Plan/Order.antt =====
-- `Plan` (internal/resource/plan.go): the order of its phases.
use pgedge_helm.Base.{ℕ, ◌<◌, elem, All, All-map, ◌≡◌, true, false, List, ◌++◌, concat}
use pgedge_helm.Base.Maps.{Map}
use pgedge_helm.Resource.{
  Identifier, identifier_key, Interface, Event, Action, create, update, delete,
}
use pgedge_helm.Resource.Topo.{topo_sort}
use pgedge_helm.Resource.Topo.Sort.{topo_sort-All}
use pgedge_helm.Resource.Topo.Dependencies.{
  DependenciesFirst, DependentsFirst, IsRanked, topo_sort-DependenciesFirst,
  topo_sort-DependentsFirst,
}
use pgedge_helm.Resource.Plan.{buckets, plan}
use pgedge_helm.Resource.Plan.Slices.{buckets-Fits}
use pgedge_helm.Resource.Plan.Actions.{sorted_lem}

module _ {R W : Type 0} (api : Interface R W) where
  open api use {identifier, dependencies}

  -- The dependencies of a resource rank below it, so that dependencies have no cycle.
  abbrev pub Descends : (Identifier → ℕ) → R → Type 0
  Descends rank r = (d : Identifier) → elem d (dependencies r) ≡ true → rank d < rank (identifier r)

  -- First deletions, dependents before dependencies; then updates and creations, dependencies
  -- before dependents.
  pub record IsInOrder (phases : List (List (Event R))) : Type 0 where
    pub deletions : List (List (Event R))
    pub changes : List (List (Event R))
    pub creations : List (List (Event R))
    pub split : phases ≡ deletions ++ (changes ++ creations)
    pub delete_only : All (λ e. e.action ≡ delete) (concat deletions)
    pub update_only : All (λ e. e.action ≡ update) (concat changes)
    pub create_only : All (λ e. e.action ≡ create) (concat creations)
    pub dependents_first : DependentsFirst api deletions
    pub updates_in_order : DependenciesFirst api changes
    pub creates_in_order : DependenciesFirst api creations

  module _ (w : W) (rank : Identifier → ℕ) (actual desired : Map Identifier R)
      (ranked_actual : All (λ e. Descends rank e.1) actual)
      (ranked_desired : All (λ e. Descends rank e.1) desired) where
    slice-IsRanked :
        (a : Action) (es : List (Event R))
        → All (λ e. (e.action ≡ a) × Descends rank e.resource) es
        → IsRanked api rank es
    slice-IsRanked a es h = All-map (λ e f d dep m. f.1 d dep) es h

    -- The phases of `Plan` are in order, where the dependencies of the resources of both maps go down
    -- in some rank, so that they have no cycle.
    pub plan-IsInOrder : IsInOrder (plan api w actual desired)
    unfolding plan
    plan-IsInOrder =
        let b = buckets api w actual desired in
        let fits = buckets-Fits api w (Descends rank) actual desired ranked_actual ranked_desired in
        record {
          deletions = topo_sort api b.deletes true;
          changes = topo_sort api b.updates false;
          creations = topo_sort api b.creates false;
          split = cc (
            sorted_lem api w b.deletes true,
            sorted_lem api w b.updates false,
            sorted_lem api w b.creates false,
          );
          delete_only =
              topo_sort-All api b.deletes true (λ e. e.action ≡ delete)
                (All-map (λ e h. h.0) b.deletes fits.deletes_fit);
          update_only =
              topo_sort-All api b.updates false (λ e. e.action ≡ update)
                (All-map (λ e h. h.0) b.updates fits.updates_fit);
          create_only =
              topo_sort-All api b.creates false (λ e. e.action ≡ create)
                (All-map (λ e h. h.0) b.creates fits.creates_fit);
          dependents_first =
              topo_sort-DependentsFirst api b.deletes rank
                (slice-IsRanked delete b.deletes fits.deletes_fit);
          updates_in_order =
              topo_sort-DependenciesFirst api b.updates rank
                (slice-IsRanked update b.updates fits.updates_fit);
          creates_in_order =
              topo_sort-DependenciesFirst api b.creates rank
                (slice-IsRanked create b.creates fits.creates_fit);
        }
