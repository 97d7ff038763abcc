-- ===== src/Base/Decimal.antt =====
-- Numbers as Go prints them with `%d`, and as `strconv.Atoi` reads them.
use Prim.Native.Nat.{ℕ, zero, suc, ◌+◌, ◌-◌, ◌*◌, ◌/◌, ◌%◌, ◌<◌, ◌≤◌, ◌^◌, compare, Ordering}
use mathlib.Core.Path.{◌≡◌}
use mathlib.Core.Bool.{Bool, true, false, ◌&&◌}
use mathlib.Core.Option.{Option, none, some}
use mathlib.Core.List.{[], ◌∷◌}
use mathlib.Core.Logic.{inl, inr}
use native.Mathlib.Omega.{arith}
use pgedge_helm.Base.Tests.{if◌then◌else◌, Bool-cases}
use pgedge_helm.Base.Text.{Text, byte_eq}
use pgedge_helm.Base.Int.{ℤ, pos, negsuc}

abbrev pub ltb : ℕ → ℕ → Bool
ltb a b = elim (compare a b) [ Ordering.lt ↦ true | _ ↦ false ]

abbrev pub leb : ℕ → ℕ → Bool
leb a b = elim (compare a b) [ Ordering.gt ↦ false | _ ↦ true ]

-- The digits of a number before those of `behind`, on fuel.
unfoldable pub digits : ℕ → ℕ → Text → Text
digits zero n behind = behind
digits (suc fuel) n behind =
    let rest = digits fuel (n / 10) ((48 + n % 10) ∷ behind) in
    if ltb n 10 then (48 + n) ∷ behind else rest

unfoldable pub decimal : ℕ → Text
unfolding digits
decimal n = digits (suc n) n []

abbrev pub is_digit : ℕ → Bool
is_digit c = leb 48 c && leb c 57

unfoldable pub parse_digits : Text → ℕ → Option ℕ
parse_digits [] n = some n
parse_digits (c ∷ cs) n =
    let rest = parse_digits cs (n * 10 + (c - 48)) in if is_digit c then rest else none

-- At least one digit.
unfoldable pub unsigned : Text → Option ℕ
unfolding parse_digits
unsigned [] = none
unsigned (c ∷ cs) = parse_digits (c ∷ cs) 0

abbrev pub negated : ℕ → ℤ
negated zero = pos 0
negated (suc n) = negsuc n

abbrev pub at_most : ℕ → (ℕ → ℤ) → Option ℕ → Option ℤ
at_most bound f none = none
at_most bound f (some n) = if leb n bound then some (f n) else none

-- `strconv.Atoi`, for an `int` of 64 bits: none where it returns an error.
unfoldable pub atoi : Text → Option ℤ
unfolding unsigned
atoi [] = none
atoi (c ∷ cs) =
    if byte_eq c 43
    then at_most (2 ^ 63 - 1) pos (unsigned cs)
    else if byte_eq c 45
    then at_most (2 ^ 63) negated (unsigned cs)
    else at_most (2 ^ 63 - 1) pos (unsigned (c ∷ cs))

digits-lem :
    (fuel n : ℕ) (behind : Text)
    → n < fuel
    → parse_digits (digits fuel n behind) 0 ≡ parse_digits behind n
unfolding digits parse_digits
digits-lem zero n behind h = absurd (ground arith)
digits-lem (suc fuel) n behind h = ground (arith, digits-lem fuel (n / 10) ((48 + n % 10) ∷ behind))

-- What is printed starts with a digit.
digits-cons :
    (fuel n : ℕ) (behind : Text)
    → n < fuel
    → (c : ℕ) × (cs : Text) × (digits fuel n behind ≡ c ∷ cs) × (48 ≤ c)
unfolding digits
digits-cons zero n behind h = absurd (ground arith)
digits-cons (suc fuel) n behind h = elim (Bool-cases (ltb n 10)) [
  | inl one ↦ (48 + n, behind, ground arith, omega arith)
  | inr more ↦
      let (c, cs, e, p) = digits-cons fuel (n / 10) ((48 + n % 10) ∷ behind) (ground arith) in
      (c, cs, ground arith, p)
]

atoi-cons :
    (c : ℕ) (cs : Text)
    → 48 ≤ c
    → atoi (c ∷ cs) ≡ at_most (2 ^ 63 - 1) pos (parse_digits (c ∷ cs) 0)
unfolding atoi unsigned
atoi-cons c cs h = ground arith

-- A number below 2^63 is read as it was printed.
pub atoi-decimal : (n : ℕ) → n < 2 ^ 63 → atoi (decimal n) ≡ some (pos n)
unfolding decimal parse_digits
atoi-decimal n h =
    let (c, cs, e, p) = digits-cons (suc n) n [] (omega arith) in
    ground (arith, atoi-cons c cs p, digits-lem (suc n) n [] (omega arith))
