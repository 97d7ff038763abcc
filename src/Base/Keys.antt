-- ===== src/Base/Keys.antt =====
-- Keys of Go maps: a type with a Boolean equality test, and membership in a list of keys.
use mathlib.Core.Path.{◌≡◌, refl, sym, subst}
use mathlib.Core.Logic.{◌↔◌, inl, inr}
use mathlib.Core.Bool.{Bool, true, false, ◌||◌}
use mathlib.Core.List.{List, [], ◌∷◌, ◌++◌}
use native.Mathlib.Omega.{arith}
use pgedge_helm.Base.Tests.{Bool-cases, All}

pub record Key {ℓ} (K : Type ℓ) : Type ℓ where
  pub same : K → K → Bool
  pub same_iff : (a b : K) → (same a b ≡ true) ↔ (a ≡ b)

infix 50 ◌==◌
abbrev pub ◌==◌ {ℓ} : {K : Type ℓ} ⦃key : Key K⦄ → K → K → Bool
◌==◌ ⦃key⦄ = key.same

module _ {ℓ} {K : Type ℓ} ⦃key : Key K⦄ where
  pub ==_iff : (a b : K) → ((a == b) ≡ true) ↔ (a ≡ b)
  ==_iff a b = key.same_iff a b

  pub ==_refl : (a : K) → (a == a) ≡ true
  ==_refl a = (key.same_iff a a).1 refl

  abbrev pub elem : K → List K → Bool
  elem k [] = false
  elem k (x ∷ xs) = k == x || elem k xs

  abbrev pub Nodup : List K → Type 0
  Nodup [] = Unit
  Nodup (x ∷ xs) = (elem x xs ≡ false) × Nodup xs

  pub elem-append : (k : K) (xs ys : List K) → elem k (xs ++ ys) ≡ (elem k xs || elem k ys)
  elem-append k [] ys = refl
  elem-append k (x ∷ xs) ys = ground (arith, elem-append k xs ys)

  -- A statement about every member, by the membership test.
  pub All-elem {κ} : (P : K → Type κ) (xs : List K) (k : K) → All P xs → elem k xs ≡ true → P k
  All-elem P [] k h e = absurd (ground arith)
  All-elem P (x ∷ xs) k h e = elim (Bool-cases (k == x)) [
    | inl here ↦ subst P (sym ((==_iff k x).0 here)) h.0
    | inr away ↦ All-elem P xs k h.1 (ground arith)
  ]

  pub elem-All {κ} : (P : K → Type κ) (xs : List K) → ((k : K) → elem k xs ≡ true → P k) → All P xs
  elem-All P [] h = tt
  elem-All P (x ∷ xs) h =
      (h x (ground (arith, ==_refl x)), elem-All P xs (λ k e. h k (ground arith)))
