-- ===== src/Resource/Topo/Visit.antt =====
-- The invariant of `inDegree` while `topoSort` takes vertices out (internal/resource/plan.go):
-- each entry counts the edges from vertices that wait.
use pgedge_helm.Base.{
  Key, ◌==◌, ==_iff, elem, elem-All, All, Nodup, ◌≡◌, sym, ◌∙◌, subst, ap, true, false, List, some,
  arith, Bool-cases, inl, inr,
}
use pgedge_helm.Base.Int.{ℤ, pos}
use pgedge_helm.Base.Maps.{Map, keys, lookup, erase, lookup-erase_ne}
use pgedge_helm.Resource.Topo.{drop_all}
use pgedge_helm.Resource.Topo.Degrees.{keys-erase, keys-drop_all, lookup-drop_all}
use pgedge_helm.Resource.Topo.Edges.{
  Edges, has_edge, count_into, targets, remove, elem-remove, remove-Nodup, elem-targets,
  count_into-pos, count_into-remove,
}

module _ {K : Type 0} ⦃key : Key K⦄ (es : Edges K) where
  pub record IsGood (deg : Map K ℤ) : Type 0 where
    pub nodup : Nodup (keys deg)
    pub counted :
        (k : K) → elem k (keys deg) ≡ true → lookup k deg ≡ some (pos (count_into es (keys deg) k))
    pub closed :
        (s t : K) → has_edge s t es ≡ true → elem s (keys deg) ≡ true → elem t (keys deg) ≡ true

  -- `s` waits, and no edge leads to it from a vertex that waits.
  abbrev pub IsFree : List K → K → Type 0
  IsFree waiting s = (elem s waiting ≡ true) × (count_into es waiting s ≡ 0)

  module _ (deg : Map K ℤ) (good : IsGood deg) (s : K) (free : IsFree (keys deg) s) where
    other : (t : K) → has_edge s t es ≡ true → (t == s) ≡ false
    other t e = elim (Bool-cases (t == s)) [
      | inl same ↦ absurd (
          omega (
            arith,
            count_into-pos s s es (keys deg)
                (subst (λ u. has_edge s u es ≡ true) ((==_iff t s).0 same) e) free.0,
          ))
      | inr ne ↦ ne
    ]

    targets_wait : All (λ t. elem t (remove s (keys deg)) ≡ true) (targets es s)
    targets_wait =
        elem-All (λ t. elem t (remove s (keys deg)) ≡ true) (targets es s)
          λ t m.
            let e : has_edge s t es ≡ true = sym (elem-targets s t es) ∙ m in
            ground
              (arith, elem-remove t s (keys deg) good.nodup, other t e, good.closed s t e free.0)

    pub keys-take_out : keys (drop_all (targets es s) (erase s deg)) ≡ remove s (keys deg)
    keys-take_out =
        keys-drop_all (targets es s) (erase s deg) (
          subst (λ ks. All (λ t. elem t ks ≡ true) (targets es s)) (sym (keys-erase s deg))
            targets_wait)
        ∙ keys-erase s deg

    take_out_counted :
        (k : K)
        → elem k (remove s (keys deg)) ≡ true
        → lookup k (drop_all (targets es s) (erase s deg))
          ≡ some (pos (count_into es (remove s (keys deg)) k))
    take_out_counted k m =
        lookup-drop_all k (count_into es (remove s (keys deg)) k) (targets es s) (erase s deg) (
          lookup-erase_ne k s deg ne
          ∙ good.counted k waits
          ∙ ap (λ n. some (pos n)) (sym (count_into-remove s k es (keys deg) good.nodup free.0)))
      where
        ne : (k == s) ≡ false
        ne = ground (arith, elem-remove k s (keys deg) good.nodup)

        waits : elem k (keys deg) ≡ true
        waits = ground (arith, elem-remove k s (keys deg) good.nodup)

    take_out_closed :
        (a b : K)
        → has_edge a b es ≡ true
        → elem a (remove s (keys deg)) ≡ true
        → elem b (remove s (keys deg)) ≡ true
    take_out_closed a b e m = elim (Bool-cases (b == s)) [
      | inl same ↦ absurd (
          omega (
            arith,
            count_into-pos a s es (keys deg)
                (subst (λ u. has_edge a u es ≡ true) ((==_iff b s).0 same) e) waits,
          ))
      | inr ne ↦ ground (arith, elem-remove b s (keys deg) good.nodup, good.closed a b e waits)
    ]
      where
        waits : elem a (keys deg) ≡ true
        waits = ground (arith, elem-remove a s (keys deg) good.nodup)

    pub take_out-IsGood : IsGood (drop_all (targets es s) (erase s deg))
    take_out-IsGood = record {
      nodup = rw keys-take_out (remove-Nodup s (keys deg) good.nodup);
      counted = rw keys-take_out take_out_counted;
      closed = rw keys-take_out take_out_closed;
    }
