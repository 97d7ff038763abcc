-- ===== src/Base/Sorting.antt =====
-- `sort.Strings`: what is sorted is in order, and only depends on what is there.
use mathlib.Core.Path.{◌≡◌, refl, sym, subst, ◌∙◌}
use mathlib.Core.Logic.{inl, inr, ∥∥₁_elim}
use mathlib.Core.Bool.{true, false}
use mathlib.Core.List.{List, [], ◌∷◌, Perm, Permᴰ}
use native.Mathlib.Omega.{arith}
use pgedge_helm.Base.Tests.{All, All-map, Bool-cases, if_ind}
use pgedge_helm.Base.Text.{Text, text_le, insert_text, sort_texts}

text_le_trans : (s t u : Text) → text_le s t ≡ true → text_le t u ≡ true → text_le s u ≡ true
text_le_trans [] t u h k = refl
text_le_trans (a ∷ s) [] u h k = absurd (ground arith)
text_le_trans (a ∷ s) (b ∷ t) [] h k = absurd (ground arith)
text_le_trans (a ∷ s) (b ∷ t) (c ∷ u) h k = ground (arith, text_le_trans s t u)

text_le_total : (s t : Text) → text_le s t ≡ false → text_le t s ≡ true
text_le_total [] t h = absurd (ground arith)
text_le_total (a ∷ s) [] h = refl
text_le_total (a ∷ s) (b ∷ t) h = ground (arith, text_le_total s t)

text_le_antisym : (s t : Text) → text_le s t ≡ true → text_le t s ≡ true → s ≡ t
text_le_antisym [] [] h k = refl
text_le_antisym [] (b ∷ t) h k = absurd (ground arith)
text_le_antisym (a ∷ s) [] h k = absurd (ground arith)
text_le_antisym (a ∷ s) (b ∷ t) h k = ground (arith, text_le_antisym s t)

-- Every text is at most each behind it.
abbrev pub IsSorted : List Text → Type 0
IsSorted [] = Unit
IsSorted (t ∷ ts) = All (λ u. text_le t u ≡ true) ts × IsSorted ts

insert_text-All :
    (s t : Text) (ts : List Text)
    → text_le s t ≡ true
    → All (λ u. text_le s u ≡ true) ts
    → All (λ u. text_le s u ≡ true) (insert_text t ts)
insert_text-All s t [] h k = (h, tt)
insert_text-All s t (u ∷ us) h (p, k) =
    if_ind (All (λ v. text_le s v ≡ true)) (text_le t u) (h, (p, k)) (p, insert_text-All s t us h k)

insert_text-IsSorted : (t : Text) (ts : List Text) → IsSorted ts → IsSorted (insert_text t ts)
insert_text-IsSorted t [] h = (tt, tt)
insert_text-IsSorted t (u ∷ us) (below, h) = elim (Bool-cases (text_le t u)) [
  | inl here ↦
      let e : insert_text t (u ∷ us) ≡ t ∷ u ∷ us = ground arith in
      subst IsSorted (sym e) ((here, All-map (λ v. text_le_trans t u v here) us below), (below, h))
  | inr on ↦
      let e : insert_text t (u ∷ us) ≡ u ∷ insert_text t us = ground arith in
      subst IsSorted (sym e)
        (insert_text-All u t us (text_le_total t u on) below, insert_text-IsSorted t us h)
]

pub sort_texts-IsSorted : (ts : List Text) → IsSorted (sort_texts ts)
unfolding sort_texts
sort_texts-IsSorted [] = tt
sort_texts-IsSorted (t ∷ ts) = insert_text-IsSorted t (sort_texts ts) (sort_texts-IsSorted ts)

perm_refl : (ts : List Text) → Permᴰ ts ts
perm_refl [] = Permᴰ.nil
perm_refl (t ∷ ts) = Permᴰ.cons refl (perm_refl ts)

insert_text-Perm : (t : Text) (ts : List Text) → Permᴰ (insert_text t ts) (t ∷ ts)
insert_text-Perm t [] = perm_refl (t ∷ [])
insert_text-Perm t (u ∷ us) =
    if_ind (λ l. Permᴰ l (t ∷ u ∷ us)) (text_le t u) (perm_refl (t ∷ u ∷ us))
      (Permᴰ.trans (Permᴰ.cons refl (insert_text-Perm t us)) (Permᴰ.swap refl refl))

sorted-Perm : (ts : List Text) → Permᴰ (sort_texts ts) ts
unfolding sort_texts
sorted-Perm [] = Permᴰ.nil
sorted-Perm (t ∷ ts) =
    Permᴰ.trans (insert_text-Perm t (sort_texts ts)) (Permᴰ.cons refl (sorted-Perm ts))

pub sort_texts-Perm : (ts : List Text) → Perm (sort_texts ts) ts
sort_texts-Perm ts = ∣ sorted-Perm ts ∣₁

insert_text_comm :
    (s t : Text) (ts : List Text)
    → insert_text s (insert_text t ts) ≡ insert_text t (insert_text s ts)
insert_text_comm s t [] = ground (arith, text_le_total s t, text_le_total t s, text_le_antisym s t)
insert_text_comm s t (u ∷ us) = ground (
  arith,
  text_le_total s t,
  text_le_total t s,
  text_le_antisym s t,
  text_le_trans s t u,
  text_le_trans t s u,
  text_le_total s u,
  text_le_total t u,
  insert_text_comm s t us,
)

same_sort : (ts us : List Text) → Permᴰ ts us → sort_texts ts ≡ sort_texts us
unfolding sort_texts
same_sort ts us Permᴰ.nil = refl
same_sort (a ∷ ts) (b ∷ us) (Permᴰ.cons e p) = ground (arith, same_sort ts us p)
same_sort (a ∷ b ∷ l) (c ∷ d ∷ _) (Permᴰ.swap e f) =
    ground (arith, insert_text_comm a b (sort_texts l))
same_sort ts us (Permᴰ.trans {l₂ = vs} p q) = same_sort ts vs p ∙ same_sort vs us q

pub sort_texts-eq_of_Perm : (ts us : List Text) → Perm ts us → sort_texts ts ≡ sort_texts us
sort_texts-eq_of_Perm ts us p = ∥∥₁_elim p (hlevel) (same_sort ts us)
