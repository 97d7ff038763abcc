-- ===== src/Resource/Topo/Order.antt =====
-- What the phases of `topoSort` (internal/resource/plan.go) amount to, for any graph.
use pgedge_helm.Base.{
  ℕ, zero, suc, ◌<◌, Key, ==_iff, elem, All, All-elem, Nodup, ◌≡◌, refl, sym, ◌∙◌, ap, true, false,
  List, [], ◌∷◌, ◌++◌, arith, Bool-cases, inl, inr, concat, elem-append, append-nil,
}
use pgedge_helm.Resource.Topo.Visit.{IsFree}
use pgedge_helm.Resource.Topo.Layers.{Layers, done, layer, cycle}
use pgedge_helm.Resource.Topo.Edges.{Edges, has_edge, count_into, count_into-pos, predecessor}

module _ {K : Type 0} ⦃key : Key K⦄ where
  pub Nodup-append :
      (xs ys : List K)
      → Nodup xs
      → Nodup ys
      → ((j : K) → elem j xs ≡ true → elem j ys ≡ false)
      → Nodup (xs ++ ys)
  Nodup-append [] ys h k apart = k
  Nodup-append (x ∷ xs) ys h k apart = (
    ground (arith, ==_iff x x, elem-append x xs ys, apart x),
    Nodup-append xs ys h.1 k (λ j m. apart j (ground arith)),
  )

module _ {K : Type 0} ⦃key : Key K⦄ (es : Edges K) where
  -- Every vertex that waits is in exactly one phase.
  pub elem-concat :
      {waiting : List K} {ls : List (List K)} (j : K)
      → Layers es waiting ls
      → elem j (concat ls) ≡ elem j waiting
  elem-concat j done = refl
  elem-concat j (layer {waiting} {rest} {k} {ks} {ls} nodup free left more) = ground (
    arith,
    elem-append j (k ∷ ks) (concat ls),
    elem-concat j more,
    left j,
    λ (m : elem j (k ∷ ks) ≡ true). (All-elem (IsFree es waiting) (k ∷ ks) j free m).0,
  )
  elem-concat j (cycle {k} {ks} nodup counts) = ap (elem j) (append-nil (k ∷ ks))

  pub concat-Nodup :
      {waiting : List K} {ls : List (List K)} → Layers es waiting ls → Nodup (concat ls)
  concat-Nodup done = tt
  concat-Nodup (layer {waiting} {rest} {k} {ks} {ls} nodup free left more) =
      Nodup-append (k ∷ ks) (concat ls) nodup (concat-Nodup more)
        λ j m. ground (arith, elem-concat j more, left j)
  concat-Nodup (cycle {k} {ks} nodup counts) = rw append-nil nodup

  -- No edge leads into a phase from that phase or from a later one.
  abbrev pub IsOrdered : List (List K) → Type 0
  IsOrdered [] = Unit
  IsOrdered (p ∷ ps) =
      ((s t : K) → elem t p ≡ true → elem s (p ++ concat ps) ≡ true → has_edge s t es ≡ false)
      × IsOrdered ps

  module _ (rank : K → ℕ) (ranked : (s t : K) → has_edge s t es ≡ true → rank s < rank t) where
    descend :
        (n : ℕ) (waiting : List K) (t : K)
        → All (λ u. 0 < count_into es waiting u) waiting
        → elem t waiting ≡ true
        → rank t < n
        → ⊥
    descend zero waiting t counts m h = omega arith
    descend (suc n) waiting t counts m h =
        let (s, e, w) =
          predecessor t es waiting
            (All-elem (λ u. 0 < count_into es waiting u) waiting t counts m) in
        descend n waiting s counts w (omega (arith, ranked s t e))

    pub Layers-IsOrdered :
        {waiting : List K} {ls : List (List K)} → Layers es waiting ls → IsOrdered ls
    Layers-IsOrdered done = tt
    Layers-IsOrdered (layer {waiting} {rest} {k} {ks} {ls} nodup free left more) =
        ((λ s t m n. before s t m (waits s n)), Layers-IsOrdered more)
      where
        waits : (s : K) → elem s ((k ∷ ks) ++ concat ls) ≡ true → elem s waiting ≡ true
        waits s n = sym (elem-concat {waiting = waiting} s (layer nodup free left more)) ∙ n

        before :
            (s t : K) → elem t (k ∷ ks) ≡ true → elem s waiting ≡ true → has_edge s t es ≡ false
        before s t m w = elim (Bool-cases (has_edge s t es)) [
          | inl e ↦ absurd (
              omega (
                arith,
                count_into-pos s t es waiting e w,
                (All-elem (IsFree es waiting) (k ∷ ks) t free m).1,
              ))
          | inr e ↦ e
        ]
    Layers-IsOrdered (cycle {k} {ks} nodup counts) =
        absurd (descend (suc (rank k)) (k ∷ ks) k counts (ground (arith, ==_iff k k)) (omega arith))
