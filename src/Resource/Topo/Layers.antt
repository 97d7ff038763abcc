-- ===== src/Resource/Topo/Layers.antt =====
-- The loop of `topoSort` (internal/resource/plan.go): what its rounds emit, as a relation.
use pgedge_helm.Base.{
  ℕ, zero, suc, ◌+◌, ◌<◌, ◌≤◌, Key, ◌==◌, ==_iff, elem, elem-All, All-elem, All, Nodup, ◌≡◌, refl,
  sym, ◌∙◌, subst, ap, true, false, not, ◌&&◌, List, [], ◌∷◌, some, arith, Bool-cases, inl, inr,
  length, List-cases, length,
}
use mathlib.Core.Bool.{false≢true}
use pgedge_helm.Base.Int.{ℤ, pos}
use pgedge_helm.Base.Maps.{Map, keys, lookup, erase}
use pgedge_helm.Resource.Topo.{ready, drop_all, targets_of, visit, layers}
use pgedge_helm.Resource.Topo.Visit.{IsGood, IsFree, keys-take_out, take_out-IsGood}
use pgedge_helm.Resource.Topo.Edges.{
  Edges, count_into, targets, remove, elem-remove, length-remove, count_into-remove,
}

module _ {K : Type 0} ⦃key : Key K⦄ where
  pub length-keys : (deg : Map K ℤ) → length (keys deg) ≡ length deg
  length-keys [] = refl
  length-keys ((k, d) ∷ deg) = omega (arith, length-keys deg)

  elem-ready : (j : K) (deg : Map K ℤ) → elem j (ready deg) ≡ true → elem j (keys deg) ≡ true
  unfolding ready
  elem-ready j [] m = m
  elem-ready j ((k, d) ∷ deg) m = ground (arith, elem-ready j deg)

  ready-Nodup : (deg : Map K ℤ) → Nodup (keys deg) → Nodup (ready deg)
  unfolding ready
  ready-Nodup [] h = tt
  ready-Nodup ((k, d) ∷ deg) h = ground (arith, elem-ready k deg, ready-Nodup deg h.1)

  lookup-ready :
      (j : K) (deg : Map K ℤ)
      → Nodup (keys deg)
      → elem j (ready deg) ≡ true
      → lookup j deg ≡ some (pos 0)
  unfolding ready
  lookup-ready j [] h m = cc
  lookup-ready j ((k, d) ∷ deg) h m =
      ground (arith, ==_iff j k, elem-ready j deg, lookup-ready j deg h.1)

  ready_complete : (j : K) (deg : Map K ℤ) → lookup j deg ≡ some (pos 0) → elem j (ready deg) ≡ true
  unfolding ready
  ready_complete j [] e = cc
  ready_complete j ((k, d) ∷ deg) e = ground (arith, ready_complete j deg)

module _ {K : Type 0} ⦃key : Key K⦄ (es : Edges K) where
  -- The phases that come of the vertices that wait.
  pub data Layers : List K → List (List K) → Type 0 where
    done : Layers [] []
    layer :
        {waiting rest : List K} {k : K} {ks : List K} {ls : List (List K)}
        → Nodup (k ∷ ks)
        → All (IsFree es waiting) (k ∷ ks)
        → ((j : K) → elem j rest ≡ (elem j waiting && not (elem j (k ∷ ks))))
        → Layers rest ls
        → Layers waiting ((k ∷ ks) ∷ ls)
    cycle :
        {k : K} {ks : List K}
        → Nodup (k ∷ ks)
        → All (λ t. 0 < count_into es (k ∷ ks) t) (k ∷ ks)
        → Layers (k ∷ ks) ((k ∷ ks) ∷ [])

  pub record Visited (deg after : Map K ℤ) (ks : List K) : Type 0 where
    pub good : IsGood es after
    pub left : (j : K) → elem j (keys after) ≡ (elem j (keys deg) && not (elem j ks))
    pub size : length (keys after) + length ks ≡ length (keys deg)

  module _ (dependents : Map K (List K))
      (links : (s : K) → targets_of s dependents ≡ targets es s) where
    still-IsFree :
        (s t : K) (waiting : List K)
        → Nodup waiting
        → IsFree es waiting s
        → (t == s) ≡ false
        → IsFree es waiting t
        → IsFree es (remove s waiting) t
    still-IsFree s t waiting nodup free ne h = (
      ground (arith, elem-remove t s waiting nodup),
      omega (arith, count_into-remove s t es waiting nodup free.0),
    )

    apart : (k t : K) (ks : List K) → elem k ks ≡ false → elem t ks ≡ true → (t == k) ≡ false
    apart k t ks absent m = elim (Bool-cases (t == k)) [
      | inl same ↦
          absurd (false≢true (sym absent ∙ subst (λ u. elem u ks ≡ true) ((==_iff t k).0 same) m))
      | inr ne ↦ ne
    ]

    join :
        (k : K) (ks : List K) (deg next after : Map K ℤ)
        → IsGood es deg
        → Nodup (k ∷ ks)
        → IsFree es (keys deg) k
        → keys next ≡ remove k (keys deg)
        → Visited next after ks
        → Visited deg after (k ∷ ks)
    join k ks deg next after good nodup free waiting v = record {
      good = v.good;
      left =
          λ j. ground (arith, v.left j, ap (elem j) waiting, elem-remove j k (keys deg) good.nodup);
      size = omega (arith, v.size, ap length waiting, length-remove k (keys deg) free.0);
    }

    visit-Visited :
        (ks : List K) (deg : Map K ℤ)
        → IsGood es deg
        → Nodup ks
        → All (IsFree es (keys deg)) ks
        → Visited deg (visit dependents ks deg) ks
    unfolding visit
    visit-Visited [] deg good nodup free = record {
      good = good;
      left = λ j. ground arith;
      size = omega arith;
    }
    visit-Visited (k ∷ ks) deg good nodup free =
        let next = drop_all (targets es k) (erase k deg) in
        let waiting : keys next ≡ remove k (keys deg) = keys-take_out es deg good k free.0 in
        rw links (
          join k ks deg next _ good nodup free.0 waiting (
            visit-Visited ks next (take_out-IsGood es deg good k free.0) nodup.1 (
              subst (λ w. All (IsFree es w) ks) (sym waiting)
                (elem-All (IsFree es (remove k (keys deg))) ks λ t m.
                  still-IsFree k t (keys deg) good.nodup free.0 (apart k t ks nodup.0 m)
                    (All-elem (IsFree es (keys deg)) ks t free.1 m)))))

  ready-IsFree : (deg : Map K ℤ) → IsGood es deg → All (IsFree es (keys deg)) (ready deg)
  ready-IsFree deg good = elem-All (IsFree es (keys deg)) (ready deg) λ t m.
      let waits = elem-ready t deg m in
      (waits, pos-injective (sym (good.counted t waits) ∙ lookup-ready t deg good.nodup m))
    where
      pos-injective : {a b : ℕ} → some (pos a) ≡ some (pos b) → a ≡ b
      pos-injective e = cc

  -- Where no vertex is ready, edges from waiting vertices lead to all that wait.
  stuck_counts :
      (deg : Map K ℤ)
      → IsGood es deg
      → ready deg ≡ []
      → All (λ t. 0 < count_into es (keys deg) t) (keys deg)
  stuck_counts deg good none_ready =
      elem-All (λ t. 0 < count_into es (keys deg) t) (keys deg)
        λ t m. positive t (count_into es (keys deg) t) (good.counted t m)
    where
      positive : (t : K) (n : ℕ) → lookup t deg ≡ some (pos n) → 0 < n
      positive t zero e =
          absurd (false≢true (subst (λ l. elem t l ≡ true) none_ready (ready_complete t deg e)))
      positive t (suc n) e = omega arith

  pub layers-Layers :
      (dependents : Map K (List K)) (links : (s : K) → targets_of s dependents ≡ targets es s)
      → (fuel : ℕ) (deg : Map K ℤ) → length deg ≤ fuel
      → IsGood es deg
      → Layers (keys deg) (layers fuel dependents deg)
  unfolding layers
  layers-Layers dependents links fuel [] h good = done
  layers-Layers dependents links zero (e ∷ deg) h good = absurd (omega arith)
  layers-Layers dependents links (suc fuel) (e ∷ deg) h good = elim (List-cases (ready (e ∷ deg))) [
    | inl none_ready ↦
        rw (none_ready, layers) (cycle good.nodup (stuck_counts (e ∷ deg) good none_ready))
    | inr (k, ks, found) ↦
        let nodup = subst Nodup found (ready-Nodup (e ∷ deg) good.nodup) in
        let free = subst (All (IsFree es (keys (e ∷ deg)))) found (ready-IsFree (e ∷ deg) good) in
        let v = visit-Visited dependents links (k ∷ ks) (e ∷ deg) good nodup free in
        let after = visit dependents (k ∷ ks) (e ∷ deg) in
        rw (found, layers)
          (layer nodup free v.left (
            layers-Layers dependents links fuel after
              (omega (arith, v.size, length-keys after, length-keys (e ∷ deg))) v.good))
  ]
