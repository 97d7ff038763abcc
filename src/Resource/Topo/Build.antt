-- ===== src/Resource/Topo/Build.antt =====
-- What `topoSort` (internal/resource/plan.go) builds before its loop: the event set, the degrees
-- and the dependents, against the plain list of edges.
use pgedge_helm.Base.{
  ℕ, suc, ◌+◌, Key, ◌==◌, ==_iff, elem, All, Nodup, ◌≡◌, refl, sym, ◌∙◌, subst, ap, true, ◌&&◌,
  List, [], ◌∷◌, ◌++◌, if◌then◌else◌, some, arith, Bool-cases, inl, inr, append-nil, append_assoc,
}
use pgedge_helm.Base.Int.{ℤ, pos, increment}
use pgedge_helm.Base.Maps.{Map, keys, lookup, lookup-insert, keys-insert_self}
use pgedge_helm.Resource.Topo.{bump, push, degree, targets_of}
use pgedge_helm.Resource.Topo.Visit.{IsGood}
use pgedge_helm.Resource.Topo.Edges.{Edges, has_edge, targets, count_into}

module _ {K : Type 0} ⦃key : Key K⦄ where
  abbrev pub add_edges : Edges K → Map K ℤ × Map K (List K) → Map K ℤ × Map K (List K)
  add_edges [] g = g
  add_edges ((s, t) ∷ es) g = add_edges es (bump t g.0, push s t g.1)

  abbrev pub in_degree : K → Edges K → ℕ
  in_degree k [] = 0
  in_degree k ((a, b) ∷ es) = (if k == b then 1 else 0) + in_degree k es

  pub count_into-in_degree :
      (k : K) (es : Edges K) (waiting : List K)
      → All (λ e. elem e.0 waiting ≡ true) es
      → count_into es waiting k ≡ in_degree k es
  count_into-in_degree k [] waiting h = refl
  count_into-in_degree k ((a, b) ∷ es) waiting h =
      ground (arith, count_into-in_degree k es waiting h.1, h.0)

  pub add_edges-append :
      (xs ys : Edges K) (g : Map K ℤ × Map K (List K))
      → add_edges (xs ++ ys) g ≡ add_edges ys (add_edges xs g)
  add_edges-append [] ys g = refl
  add_edges-append ((s, t) ∷ xs) ys g = add_edges-append xs ys (bump t g.0, push s t g.1)

  pub lookup-add_edges :
      (k : K) (n : ℕ) (es : Edges K) (g : Map K ℤ × Map K (List K))
      → lookup k g.0 ≡ some (pos n)
      → lookup k (add_edges es g).0 ≡ some (pos (n + in_degree k es))
  lookup-add_edges k n [] g h = h ∙ ap (λ m. some (pos m)) (omega arith)
  lookup-add_edges k n ((s, t) ∷ es) g h = elim (Bool-cases (k == t)) [
    | inl here ↦
        lookup-add_edges k (suc n) es (bump t g.0, push s t g.1)
          (lookup-insert k t (increment (degree t g.0)) g.0 ∙ ground (arith, ==_iff k t))
        ∙ ap (λ m. some (pos m)) (rw here (omega arith))
    | inr away ↦
        lookup-add_edges k n es (bump t g.0, push s t g.1)
          (lookup-insert k t (increment (degree t g.0)) g.0 ∙ ground (arith, ==_iff k t))
        ∙ ap (λ m. some (pos m)) (rw away (omega arith))
  ]

  pub keys-add_edges :
      (es : Edges K) (g : Map K ℤ × Map K (List K))
      → All (λ e. elem e.1 (keys g.0) ≡ true) es
      → keys (add_edges es g).0 ≡ keys g.0
  keys-add_edges [] g h = refl
  keys-add_edges ((s, t) ∷ es) g h =
      let same = keys-insert_self t (increment (degree t g.0)) g.0 h.0 in
      keys-add_edges es (bump t g.0, push s t g.1)
        (subst (λ ks. All (λ e. elem e.1 ks ≡ true) es) (sym same) h.1)
      ∙ same

  targets_of-push :
      (k s t : K) (m : Map K (List K))
      → targets_of k (push s t m) ≡ targets_of k m ++ (if k == s then t ∷ [] else [])
  targets_of-push k s t m = ground (
    arith,
    lookup-insert k s (targets_of s m ++ t ∷ []) m,
    ==_iff k s,
    append-nil (targets_of k m),
  )

  pub targets_of-add_edges :
      (k : K) (es : Edges K) (g : Map K ℤ × Map K (List K))
      → targets_of k (add_edges es g).1 ≡ targets_of k g.1 ++ targets es k
  targets_of-add_edges k [] g = sym (append-nil (targets_of k g.1))
  targets_of-add_edges k ((s, t) ∷ es) g =
      targets_of-add_edges k es (bump t g.0, push s t g.1)
      ∙ ap (λ l. l ++ targets es k) (targets_of-push k s t g.1)
      ∙ append_assoc (targets_of k g.1) (if k == s then t ∷ [] else []) (targets es k)
      ∙ ap (λ l. targets_of k g.1 ++ l) split
    where
      split :
          (if k == s then t ∷ [] else []) ++ targets es k
          ≡ (if k == s then t ∷ targets es k else targets es k)
      split = ground arith

  pub has_edge_ends :
      (P : K → K → Type 0) (s t : K) (es : Edges K)
      → All (λ e. P e.0 e.1) es
      → has_edge s t es ≡ true
      → P s t
  has_edge_ends P s t [] h e = absurd (ground arith)
  has_edge_ends P s t ((a, b) ∷ es) h e = elim (Bool-cases (s == a && t == b)) [
    | inl here ↦
        subst (λ u. P u t) (sym ((==_iff s a).0 (ground arith)))
          (subst (P a) (sym ((==_iff t b).0 (ground arith))) h.0)
    | inr away ↦ has_edge_ends P s t es h.1 (ground arith)
  ]

  -- Where all ends of the edges are keys of zero degree, adding the edges makes the invariant.
  pub add_edges-IsGood :
      (es : Edges K) (g : Map K ℤ × Map K (List K))
      → Nodup (keys g.0)
      → ((k : K) → elem k (keys g.0) ≡ true → lookup k g.0 ≡ some (pos 0))
      → All (λ e. elem e.0 (keys g.0) ≡ true) es
      → All (λ e. elem e.1 (keys g.0) ≡ true) es
      → IsGood es (add_edges es g).0
  add_edges-IsGood es g nodup zeros sources ends = record {
    nodup = rw (keys-add_edges es g ends) nodup;
    counted = rw (keys-add_edges es g ends) λ k m.
        lookup-add_edges k 0 es g (zeros k m)
        ∙ ap (λ n. some (pos n)) (omega (arith, count_into-in_degree k es (keys g.0) sources));
    closed =
        rw (keys-add_edges es g ends)
          λ s t e m. has_edge_ends (λ a b. elem b (keys g.0) ≡ true) s t es ends e;
  }
