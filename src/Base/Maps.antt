-- ===== src/Base/Maps.antt =====
-- Go maps as association lists in insertion order: `m[k]`, `m[k] = v`, `delete(m, k)`.
use pgedge_helm.Base.Tests.{if◌then◌else◌, is_some, Bool-cases}
use mathlib.Core.Logic.{inl, inr}
use pgedge_helm.Base.Keys.{Key, ◌==◌, ==_iff, elem, Nodup}
use mathlib.Core.Path.{◌≡◌, refl}
use mathlib.Core.Bool.{Bool, true, false, ◌||◌}
use mathlib.Core.Option.{Option, none, some}
use mathlib.Core.List.{List, [], ◌∷◌}
use native.Mathlib.Omega.{arith}

abbrev pub Map {ℓ κ} : Type ℓ → Type κ → Type (ℓ ⊔ κ)
Map K V = List (K × V)

module _ {ℓ κ} {K : Type ℓ} {V : Type κ} ⦃key : Key K⦄ where
  abbrev pub keys : Map K V → List K
  keys [] = []
  keys ((k, v) ∷ m) = k ∷ keys m

  abbrev pub lookup : K → Map K V → Option V
  lookup k [] = none
  lookup k ((j, v) ∷ m) = if k == j then some v else lookup k m

  -- `_, ok := m[k]`
  abbrev pub contains : K → Map K V → Bool
  contains k m = is_some (lookup k m)

  abbrev pub insert : K → V → Map K V → Map K V
  insert k v [] = (k, v) ∷ []
  insert k v ((j, w) ∷ m) = if k == j then (k, v) ∷ m else (j, w) ∷ insert k v m

  -- `delete(m, k)`
  abbrev pub erase : K → Map K V → Map K V
  erase k [] = []
  erase k ((j, w) ∷ m) = if k == j then m else (j, w) ∷ erase k m

  pub contains-eq-elem : (k : K) (m : Map K V) → contains k m ≡ elem k (keys m)
  contains-eq-elem k [] = refl
  contains-eq-elem k ((j, w) ∷ m) = ground (arith, contains-eq-elem k m)

  pub lookup-insert :
      (j k : K) (v : V) (m : Map K V)
      → lookup j (insert k v m) ≡ (if j == k then some v else lookup j m)
  lookup-insert j k v [] = refl
  lookup-insert j k v ((i, w) ∷ m) =
      ground (arith, ==_iff j k, ==_iff k i, ==_iff j i, lookup-insert j k v m)

  pub elem-keys-insert :
      (j k : K) (v : V) (m : Map K V) → elem j (keys (insert k v m)) ≡ (j == k || elem j (keys m))
  elem-keys-insert j k v [] = refl
  elem-keys-insert j k v ((i, w) ∷ m) =
      ground (arith, ==_iff j k, ==_iff k i, ==_iff j i, elem-keys-insert j k v m)

  pub insert-Nodup : (k : K) (v : V) (m : Map K V) → Nodup (keys m) → Nodup (keys (insert k v m))
  insert-Nodup k v [] h = ground arith
  insert-Nodup k v ((i, w) ∷ m) h =
      ground (arith, ==_iff k i, ==_iff i k, elem-keys-insert i k v m, insert-Nodup k v m h.1)

  pub keys-insert_self :
      (k : K) (v : V) (m : Map K V) → elem k (keys m) ≡ true → keys (insert k v m) ≡ keys m
  keys-insert_self k v [] e = cc
  keys-insert_self k v ((i, w) ∷ m) e = ground (arith, ==_iff k i, keys-insert_self k v m)

  pub lookup-erase_ne :
      (j k : K) (m : Map K V) → (j == k) ≡ false → lookup j (erase k m) ≡ lookup j m
  lookup-erase_ne j k [] e = refl
  lookup-erase_ne j k ((i, w) ∷ m) e =
      ground (arith, ==_iff j i, ==_iff k i, ==_iff j k, lookup-erase_ne j k m)

  pub lookup_of_elem :
      (k : K) (m : Map K V) → elem k (keys m) ≡ true → (v : V) × (lookup k m ≡ some v)
  lookup_of_elem k [] e = cc
  lookup_of_elem k ((i, w) ∷ m) e = elim (Bool-cases (k == i)) [
    | inl here ↦ (w, ground arith)
    | inr away ↦ let (v, found) = lookup_of_elem k m (ground arith) in (v, ground arith)
  ]
