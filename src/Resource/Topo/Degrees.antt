-- ===== src/Resource/Topo/Degrees.antt =====
-- The invariant of `inDegree` while `topoSort` takes vertices out (internal/resource/plan.go):
-- each entry counts the edges from vertices that wait.
use pgedge_helm.Base.{
  ℕ, ◌+◌, Key, ◌==◌, ==_iff, elem, All, ◌≡◌, refl, sym, ◌∙◌, subst, ap, true, List, [], ◌∷◌,
  if◌then◌else◌, some, arith,
}
use pgedge_helm.Base.Int.{ℤ, pos, decrement}
use pgedge_helm.Base.Maps.{Map, keys, lookup, erase, lookup-insert, keys-insert_self}
use pgedge_helm.Resource.Topo.{degree, drop_one, drop_all}
use pgedge_helm.Resource.Topo.Edges.{occurrences, remove}

module _ {K : Type 0} ⦃key : Key K⦄ where
  pub keys-erase : (k : K) (m : Map K ℤ) → keys (erase k m) ≡ remove k (keys m)
  keys-erase k [] = refl
  keys-erase k ((i, w) ∷ m) = ground (arith, keys-erase k m)

  pub keys-drop_all :
      (ts : List K) (deg : Map K ℤ)
      → All (λ t. elem t (keys deg) ≡ true) ts
      → keys (drop_all ts deg) ≡ keys deg
  unfolding drop_all
  keys-drop_all [] deg h = refl
  keys-drop_all (t ∷ ts) deg h =
      let same = keys-insert_self t (decrement (degree t deg)) deg h.0 in
      keys-drop_all ts (drop_one t deg)
        (subst (λ ks. All (λ t. elem t ks ≡ true) ts) (sym same) h.1)
      ∙ same

  pub lookup-drop_all :
      (k : K) (n : ℕ) (ts : List K) (deg : Map K ℤ)
      → lookup k deg ≡ some (pos (n + occurrences k ts))
      → lookup k (drop_all ts deg) ≡ some (pos n)
  unfolding drop_all
  lookup-drop_all k n [] deg h = h ∙ ap (λ m. some (pos m)) (omega arith)
  lookup-drop_all k n (t ∷ ts) deg h =
      lookup-drop_all k n ts (drop_one t deg)
        (lookup-insert k t (decrement (degree t deg)) deg ∙ after)
    where
      after :
          (if k == t then some (decrement (degree t deg)) else lookup k deg)
          ≡ some (pos (n + occurrences k ts))
      after = ground (arith, ==_iff k t)
