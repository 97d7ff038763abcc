-- ===== src/Resource/Plan/Actions.antt =====
-- `Plan` (internal/resource/plan.go): which events it emits.
use pgedge_helm.Base.{
  elem, All, All-map, ◌≡◌, refl, Bool, true, false, not, ◌&&◌, ◌||◌, List, [], ◌∷◌, ◌++◌, ◌∙◌,
  if_ind, arith, Nodup, concat,
}
use pgedge_helm.Base.Maps.{Map, keys, contains}
use pgedge_helm.Resource.{Identifier, identifier_key, Interface, Event, create, update, delete}
use pgedge_helm.Resource.Topo.{topo_sort}
use pgedge_helm.Resource.Topo.Events.{ids}
use pgedge_helm.Resource.Topo.Sort.{topo_sort-events, topo_sort-All}
use pgedge_helm.Resource.Plan.{
  Buckets, no_events, plan_actual, buckets, drop_unwanted, sorted, plan,
}
use pgedge_helm.Resource.Plan.Slices.{
  IsKeyed, under, broken, stale, deletes-plan_actual, deletes-plan_desired, creates-plan_desired,
  updates-plan_desired, buckets-Fits,
}

module _ {R W : Type 0} (api : Interface R W) (w : W) where
  -- The phases are phases of deletions, then of updates, then of creations, and each of the three
  -- has the identifiers that it should have, once.
  pub record IsDifference (actual desired : Map Identifier R) (phases : List (List (Event R)))
      : Type 0 where
    pub deletions : List (List (Event R))
    pub changes : List (List (Event R))
    pub creations : List (List (Event R))
    pub split : phases ≡ deletions ++ (changes ++ creations)
    pub delete_only : All (λ e. e.action ≡ delete) (concat deletions)
    pub update_only : All (λ e. e.action ≡ update) (concat changes)
    pub create_only : All (λ e. e.action ≡ create) (concat creations)
    pub deleted_once : Nodup (ids api (concat deletions))
    pub updated_once : Nodup (ids api (concat changes))
    pub created_once : Nodup (ids api (concat creations))
    -- Deleted is what is not wanted, and what is there and has to be recreated.
    pub deleted :
        (k : Identifier)
        → elem k (ids api (concat deletions)) ≡ (
            elem k (keys actual)
            && (not (elem k (keys desired)) || under api w k (broken api w) desired))
    -- Updated is what is there, and stale but not broken.
    pub updated :
        (k : Identifier)
        → elem k (ids api (concat changes))
          ≡ (elem k (keys actual) && under api w k (stale api w) desired)
    -- Created is what is wanted and is not there, or is there and has to be recreated.
    pub created :
        (k : Identifier)
        → elem k (ids api (concat creations)) ≡ (
            elem k (keys desired)
            && (not (elem k (keys actual)) || under api w k (broken api w) desired))

  pub sorted_lem :
      (es : List (Event R)) (reverse : Bool) → sorted api w es reverse ≡ topo_sort api es reverse
  unfolding topo_sort
  sorted_lem [] reverse = refl
  sorted_lem (e ∷ es) reverse = refl

  creates-plan_actual :
      (desired m : Map Identifier R) (b : Buckets R)
      → (plan_actual api w desired m b).creates ≡ b.creates
  unfolding plan_actual
  creates-plan_actual desired [] b = refl
  creates-plan_actual desired ((j, r) ∷ m) b =
      creates-plan_actual desired m (drop_unwanted api w desired j r b)
      ∙ if_ind (λ (c : Buckets R). c.creates ≡ b.creates) (contains j desired) refl refl

  updates-plan_actual :
      (desired m : Map Identifier R) (b : Buckets R)
      → (plan_actual api w desired m b).updates ≡ b.updates
  unfolding plan_actual
  updates-plan_actual desired [] b = refl
  updates-plan_actual desired ((j, r) ∷ m) b =
      updates-plan_actual desired m (drop_unwanted api w desired j r b)
      ∙ if_ind (λ (c : Buckets R). c.updates ≡ b.updates) (contains j desired) refl refl

  pub All-unit : {A : Type 0} (m : List A) → All (λ _. Unit {0}) m
  All-unit [] = tt
  All-unit (x ∷ m) = (tt, All-unit m)

  pub under-elem :
      (k : Identifier) (f : R → Bool) (m : Map Identifier R)
      → under api w k f m ≡ true
      → elem k (keys m) ≡ true
  under-elem k f [] e = e
  under-elem k f ((j, r) ∷ m) e = ground (arith, under-elem k f m)

  module _ (actual desired : Map Identifier R) (ka : IsKeyed api w actual)
      (kd : IsKeyed api w desired) where
    abbrev pub slices : Buckets R
    slices = buckets api w actual desired

    pub in_deletes :
        (k : Identifier)
        → elem k (ids api slices.deletes) ≡ (
            elem k (keys actual)
            && (not (elem k (keys desired)) || under api w k (broken api w) desired))
    unfolding buckets
    in_deletes k = ground (
      arith,
      deletes-plan_desired api w k actual desired (plan_actual api w desired actual no_events) kd,
      deletes-plan_actual api w k desired actual no_events ka,
    )

    pub in_creates :
        (k : Identifier)
        → elem k (ids api slices.creates) ≡ (
            elem k (keys desired)
            && (not (elem k (keys actual)) || under api w k (broken api w) desired))
    unfolding buckets
    in_creates k = ground (
      arith,
      creates-plan_desired api w k actual desired (plan_actual api w desired actual no_events) kd,
      creates-plan_actual desired actual no_events,
      under-elem k (broken api w) desired,
    )

    pub in_updates :
        (k : Identifier)
        → elem k (ids api slices.updates)
          ≡ (elem k (keys actual) && under api w k (stale api w) desired)
    unfolding buckets
    in_updates k = ground (
      arith,
      updates-plan_desired api w k actual desired (plan_actual api w desired actual no_events) kd,
      updates-plan_actual desired actual no_events,
    )

    -- `Plan` is the difference of the two maps, where every resource stands under its identifier: its
    -- phases are deletions, then updates, then creations. Deleted is what is not wanted or is to be
    -- recreated, updated what is to be updated, and created what is absent or is to be recreated,
    -- each identifier once.
    pub plan-IsDifference : IsDifference actual desired (plan api w actual desired)
    unfolding plan
    plan-IsDifference =
        let fits =
          buckets-Fits api w (λ _. Unit {0}) actual desired (All-unit actual) (All-unit desired) in
        let (d, d1, _) = topo_sort-events api slices.deletes true in
        let (u, u1, _) = topo_sort-events api slices.updates false in
        let (c, c1, _) = topo_sort-events api slices.creates false in
        record {
          deletions = topo_sort api slices.deletes true;
          changes = topo_sort api slices.updates false;
          creations = topo_sort api slices.creates false;
          split = cc (
            sorted_lem slices.deletes true,
            sorted_lem slices.updates false,
            sorted_lem slices.creates false,
          );
          delete_only =
              topo_sort-All api slices.deletes true (λ e. e.action ≡ delete)
                (All-map (λ e h. h.0) slices.deletes fits.deletes_fit);
          update_only =
              topo_sort-All api slices.updates false (λ e. e.action ≡ update)
                (All-map (λ e h. h.0) slices.updates fits.updates_fit);
          create_only =
              topo_sort-All api slices.creates false (λ e. e.action ≡ create)
                (All-map (λ e h. h.0) slices.creates fits.creates_fit);
          deleted_once = d1;
          updated_once = u1;
          created_once = c1;
          deleted = λ k. d k ∙ in_deletes k;
          updated = λ k. u k ∙ in_updates k;
          created = λ k. c k ∙ in_creates k;
        }
