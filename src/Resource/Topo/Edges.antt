-- ===== src/Resource/Topo/Edges.antt =====
-- The graph that `topoSort` builds, as a list of edges: (a, b) says that a comes before b.
-- Counts of the edges into a vertex from those that still wait, for the loop of
-- internal/resource/plan.go.
use pgedge_helm.Base.{
  ℕ, suc, ◌+◌, ◌<◌, Key, ◌==◌, ==_iff, ==_refl, elem, Nodup, ◌≡◌, refl, Bool, true, false, not,
  ◌&&◌, ◌||◌, List, [], ◌∷◌, ◌++◌, if◌then◌else◌, arith, Bool-cases, inl, inr, length,
}

abbrev pub Edges : Type 0 → Type 0
Edges K = List (K × K)

module _ {K : Type 0} ⦃key : Key K⦄ where
  abbrev pub has_edge : K → K → Edges K → Bool
  has_edge s t [] = false
  has_edge s t ((a, b) ∷ es) = (s == a && t == b) || has_edge s t es

  -- The edges into `k` from vertices that wait.
  abbrev pub count_into : Edges K → List K → K → ℕ
  count_into [] waiting k = 0
  count_into ((a, b) ∷ es) waiting k =
      (if k == b && elem a waiting then 1 else 0) + count_into es waiting k

  abbrev pub targets : Edges K → K → List K
  targets [] s = []
  targets ((a, b) ∷ es) s = if s == a then b ∷ targets es s else targets es s

  abbrev pub occurrences : K → List K → ℕ
  occurrences k [] = 0
  occurrences k (x ∷ xs) = (if k == x then 1 else 0) + occurrences k xs

  abbrev pub remove : K → List K → List K
  remove k [] = []
  remove k (x ∷ xs) = if k == x then xs else x ∷ remove k xs

  pub elem-remove :
      (j k : K) (xs : List K) → Nodup xs → elem j (remove k xs) ≡ (elem j xs && not (j == k))
  elem-remove j k [] h = refl
  elem-remove j k (x ∷ xs) h =
      ground (arith, ==_iff k x, ==_iff j x, ==_iff j k, elem-remove j k xs h.1)

  pub remove-Nodup : (k : K) (xs : List K) → Nodup xs → Nodup (remove k xs)
  remove-Nodup k [] h = tt
  remove-Nodup k (x ∷ xs) h =
      ground (arith, ==_iff k x, remove-Nodup k xs h.1, elem-remove x k xs h.1)

  pub length-remove :
      (k : K) (xs : List K) → elem k xs ≡ true → suc (length (remove k xs)) ≡ length xs
  length-remove k [] e = ground arith
  length-remove k (x ∷ xs) e = ground (arith, length-remove k xs)

  pub elem-targets : (s t : K) (es : Edges K) → elem t (targets es s) ≡ has_edge s t es
  elem-targets s t [] = refl
  elem-targets s t ((a, b) ∷ es) = ground (arith, elem-targets s t es)

  pub count_into-pos :
      (s t : K) (es : Edges K) (waiting : List K)
      → has_edge s t es ≡ true
      → elem s waiting ≡ true
      → 0 < count_into es waiting t
  count_into-pos s t [] waiting e m = ground arith
  count_into-pos s t ((a, b) ∷ es) waiting e m =
      ground (arith, ==_iff s a, count_into-pos s t es waiting)

  -- A vertex that an edge still leads to has a predecessor that waits.
  pub predecessor :
      (t : K) (es : Edges K) (waiting : List K)
      → 0 < count_into es waiting t
      → (s : K) × (has_edge s t es ≡ true) × (elem s waiting ≡ true)
  predecessor t [] waiting h = absurd (omega arith)
  predecessor t ((a, b) ∷ es) waiting h = elim (Bool-cases (t == b && elem a waiting)) [
    | inl here ↦ (a, ground (arith, ==_refl a), ground arith)
    | inr away ↦ let (s, e, m) = predecessor t es waiting (ground arith) in (s, ground arith, m)
  ]

  -- What a vertex that leaves takes from the count of another.
  pub count_into-remove :
      (s k : K) (es : Edges K) (waiting : List K)
      → Nodup waiting
      → elem s waiting ≡ true
      → count_into es (remove s waiting) k + occurrences k (targets es s) ≡ count_into es waiting k
  count_into-remove s k [] waiting nodup m = refl
  count_into-remove s k ((a, b) ∷ es) waiting nodup m = ground (
    arith,
    ==_iff s a,
    ==_iff a s,
    elem-remove a s waiting nodup,
    count_into-remove s k es waiting nodup m,
  )

  pub has_edge-append :
      (s t : K) (xs ys : Edges K) → has_edge s t (xs ++ ys) ≡ (has_edge s t xs || has_edge s t ys)
  has_edge-append s t [] ys = refl
  has_edge-append s t ((a, b) ∷ xs) ys = ground (arith, has_edge-append s t xs ys)
