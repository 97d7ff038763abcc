-- ===== src/Resource/Plan/Slices.antt =====
-- Which identifiers stand in which slice of `Plan` (internal/resource/plan.go).
use pgedge_helm.Base.{
  ◌==◌, ==_iff, elem, elem-append, All, All-append, ◌≡◌, refl, Bool, false, not, ◌&&◌, ◌||◌, List,
  [], ◌∷◌, ◌++◌, if◌then◌else◌, if_ind, arith,
}
use pgedge_helm.Base.Maps.{Map, keys, contains, contains-eq-elem}
use pgedge_helm.Resource.{
  Identifier, identifier_key, Interface, Event, Action, create, update, delete,
}
use pgedge_helm.Resource.Topo.Events.{ids}
use pgedge_helm.Resource.Topo.Sort.{ids-append}
use pgedge_helm.Resource.Plan.{
  Buckets, plan_actual, plan_desired, buckets, event, drop_unwanted, classify,
}

module _ {R W : Type 0} (api : Interface R W) (w : W) where
  open api use {identifier}

  -- Every resource stands under its own identifier.
  abbrev pub IsKeyed : Map Identifier R → Type 0
  IsKeyed = All (λ e. identifier e.1 ≡ e.0)

  -- Whether `f` holds of some entry of the map that stands under `k`.
  abbrev pub under : Identifier → (R → Bool) → Map Identifier R → Bool
  under k f [] = false
  under k f ((j, r) ∷ m) = (k == j && f r) || under k f m

  abbrev pub broken : R → Bool
  broken r = let s = api.status w r in s.exists && s.needs_recreate

  abbrev pub stale : R → Bool
  stale r = let s = api.status w r in s.exists && (s.needs_update && not s.needs_recreate)

  elem-ids-snoc :
      (k : Identifier) (es : List (Event R)) (a : Action) (r : R)
      → elem k (ids api (es ++ event api w a r ∷ [])) ≡ (elem k (ids api es) || k == identifier r)
  elem-ids-snoc k es a r = ground (
    arith,
    ids-append api es (event api w a r ∷ []),
    elem-append k (ids api es) (identifier r ∷ []),
  )

  pub deletes-plan_actual :
      (k : Identifier) (desired m : Map Identifier R) (b : Buckets R)
      → IsKeyed m
      → elem k (ids api (plan_actual api w desired m b).deletes)
        ≡ (elem k (ids api b.deletes) || (elem k (keys m) && not (elem k (keys desired))))
  unfolding plan_actual
  deletes-plan_actual k desired [] b h = ground arith
  deletes-plan_actual k desired ((j, r) ∷ m) b h = ground (
    arith,
    deletes-plan_actual k desired m (drop_unwanted api w desired j r b) h.1,
    elem-ids-snoc k b.deletes delete r,
    contains-eq-elem j desired,
    ==_iff k j,
    h.0,
  )

  module _ (k : Identifier) (actual : Map Identifier R) where
    pub deletes-plan_desired :
        (m : Map Identifier R) (b : Buckets R)
        → IsKeyed m
        → elem k (ids api (plan_desired api w actual m b).deletes)
          ≡ (elem k (ids api b.deletes) || (elem k (keys actual) && under k broken m))
    unfolding plan_desired
    deletes-plan_desired [] b h = ground arith
    deletes-plan_desired ((j, r) ∷ m) b h = ground (
      arith,
      deletes-plan_desired m (classify api w actual j r b) h.1,
      elem-ids-snoc k b.deletes delete r,
      contains-eq-elem j actual,
      ==_iff k j,
      h.0,
    )

    pub creates-plan_desired :
        (m : Map Identifier R) (b : Buckets R)
        → IsKeyed m
        → elem k (ids api (plan_desired api w actual m b).creates) ≡ (
            elem k (ids api b.creates)
            || (if elem k (keys actual) then under k broken m else elem k (keys m)))
    unfolding plan_desired
    creates-plan_desired [] b h = ground arith
    creates-plan_desired ((j, r) ∷ m) b h = ground (
      arith,
      creates-plan_desired m (classify api w actual j r b) h.1,
      elem-ids-snoc k b.creates create r,
      contains-eq-elem j actual,
      ==_iff k j,
      h.0,
    )

    pub updates-plan_desired :
        (m : Map Identifier R) (b : Buckets R)
        → IsKeyed m
        → elem k (ids api (plan_desired api w actual m b).updates)
          ≡ (elem k (ids api b.updates) || (elem k (keys actual) && under k stale m))
    unfolding plan_desired
    updates-plan_desired [] b h = ground arith
    updates-plan_desired ((j, r) ∷ m) b h = ground (
      arith,
      updates-plan_desired m (classify api w actual j r b) h.1,
      elem-ids-snoc k b.updates update r,
      contains-eq-elem j actual,
      ==_iff k j,
      h.0,
    )

  -- Each slice has its own action, and only resources with `P`.
  pub record Fits (P : R → Type 0) (b : Buckets R) : Type 0 where
    pub deletes_fit : All (λ e. (e.action ≡ delete) × P e.resource) b.deletes
    pub creates_fit : All (λ e. (e.action ≡ create) × P e.resource) b.creates
    pub updates_fit : All (λ e. (e.action ≡ update) × P e.resource) b.updates

  module _ (P : R → Type 0) where
    snoc :
        (a : Action) (es : List (Event R)) (r : R)
        → All (λ e. (e.action ≡ a) × P e.resource) es
        → P r
        → All (λ e. (e.action ≡ a) × P e.resource) (es ++ event api w a r ∷ [])
    snoc a es r h p =
        All-append (λ e. (e.action ≡ a) × P e.resource) es (event api w a r ∷ []) h ((refl, p), tt)

    drop_unwanted-Fits :
        (desired : Map Identifier R) (j : Identifier) (r : R) (b : Buckets R)
        → P r
        → Fits P b
        → Fits P (drop_unwanted api w desired j r b)
    drop_unwanted-Fits desired j r b p f = if_ind (Fits P) (contains j desired) f (record {
      deletes_fit = snoc delete b.deletes r f.deletes_fit p;
      creates_fit = f.creates_fit;
      updates_fit = f.updates_fit;
    })

    classify-Fits :
        (actual : Map Identifier R) (j : Identifier) (r : R) (b : Buckets R)
        → P r
        → Fits P b
        → Fits P (classify api w actual j r b)
    classify-Fits actual j r b p f =
        let s = api.status w r in
        if_ind (Fits P) (contains j actual)
          (if_ind (Fits P) (s.exists && s.needs_recreate)
            (record {
              deletes_fit = snoc delete b.deletes r f.deletes_fit p;
              creates_fit = snoc create b.creates r f.creates_fit p;
              updates_fit = f.updates_fit;
            })
            (if_ind (Fits P) (s.exists && s.needs_update)
              (record {
                deletes_fit = f.deletes_fit;
                creates_fit = f.creates_fit;
                updates_fit = snoc update b.updates r f.updates_fit p;
              })
              f))
          (record {
            deletes_fit = f.deletes_fit;
            creates_fit = snoc create b.creates r f.creates_fit p;
            updates_fit = f.updates_fit;
          })

    plan_actual-Fits :
        (desired m : Map Identifier R) (b : Buckets R)
        → All (λ e. P e.1) m
        → Fits P b
        → Fits P (plan_actual api w desired m b)
    unfolding plan_actual
    plan_actual-Fits desired [] b h f = f
    plan_actual-Fits desired ((j, r) ∷ m) b h f =
        plan_actual-Fits desired m (drop_unwanted api w desired j r b) h.1
          (drop_unwanted-Fits desired j r b h.0 f)

    plan_desired-Fits :
        (actual m : Map Identifier R) (b : Buckets R)
        → All (λ e. P e.1) m
        → Fits P b
        → Fits P (plan_desired api w actual m b)
    unfolding plan_desired
    plan_desired-Fits actual [] b h f = f
    plan_desired-Fits actual ((j, r) ∷ m) b h f =
        plan_desired-Fits actual m (classify api w actual j r b) h.1
          (classify-Fits actual j r b h.0 f)

    pub buckets-Fits :
        (actual desired : Map Identifier R)
        → All (λ e. P e.1) actual
        → All (λ e. P e.1) desired
        → Fits P (buckets api w actual desired)
    unfolding buckets
    buckets-Fits actual desired ha hd = plan_desired-Fits actual desired _ hd (
        plan_actual-Fits desired actual _ ha
          (record { deletes_fit = tt; creates_fit = tt; updates_fit = tt }))
