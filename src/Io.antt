-- ===== src/Io.antt =====
-- Calls of the outside that return a value or an error, and `if err != nil { return err }`.
use pgedge_helm.Base.{
  ℕ, ◌+◌, ◌≤◌, ◌-◌, ◌⊎◌, ◌≢◌, ◌≡◌, refl, subst, arith, ◌<◌, Bool-cases, inl, inr, Option, none,
}
use pgedge_helm.Base.Text.{Text}
use pgedge_helm.Base.Decimal.{ltb}
use pgedge_helm.Resource.{Error, context}

pub data Result {ℓ} (A : Type ℓ) : Type ℓ where
  ok : A → Result A
  err : Error → Result A

abbrev pub Io : Type 0 → Type 0 → Type 0
Io S A = S → Result A × S

module _ {S : Type 0} where
  infixl 5 ◌>>=◌
  abbrev pub ◌>>=◌ : {A B : Type 0} → Io S A → (A → Io S B) → Io S B
  (m >>= rest) s = let (r, t) = m s in elim r [ err e ↦ (err e, t) | ok a ↦ rest a t ]

  abbrev pub pure : {A : Type 0} → A → Io S A
  pure a s = (ok a, s)

  -- `return fmt.Errorf("...: %w", err)`
  abbrev pub wrapped : {A : Type 0} → Text → Io S A → Io S A
  wrapped what m s =
      let (r, t) = m s in elim r [ err e ↦ (err (context what e), t) | ok a ↦ (ok a, t) ]

-- How a loop that waits ends.
pub data Waited : Type 0 where
  came_up : Waited
  gave_up : Error → Waited

-- A context with a deadline: `Within n s` says that at `s` there is one, at most `n` seconds away.
-- A `select` between `ctx.Done()` and `time.After` takes its time, unless the deadline comes first.
pub record HasDeadline {S : Type 0} (ctx_err : S → Option Error) (wait : ℕ → S → S)
    (Within : ℕ → S → Type 0) : Type 0 where
  pub wait_ticks : (seconds n : ℕ) (s : S) → Within n s → Within (n - seconds) (wait seconds s)
  pub has_ended : (s : S) → Within 0 s → ctx_err s ≢ none

-- A context that stays open: `Open n s` says that at `s` its deadline is `n` seconds away at least.
pub record StaysOpen {S : Type 0} (ctx_err : S → Option Error) (wait : ℕ → S → S)
    (Open : ℕ → S → Type 0) : Type 0 where
  pub wait_shortens : (seconds n : ℕ) (s : S) → Open n s → Open (n - seconds) (wait seconds s)
  pub is_open : (n : ℕ) (s : S) → 0 < n → Open n s → ctx_err s ≡ none

-- What is due `m` seconds from now at most is there already, or more than `slack` seconds before the
-- deadline.
abbrev pub OnTime : {S : Type 0} → (Open Up : ℕ → S → Type 0) → (slack m : ℕ) → S → Type 0
OnTime {S} Open Up slack m s =
    (left due : ℕ) × Open left s × Up due s × ((due ≡ 0) ⊎ (due + slack < left)) × (due ≤ m)

pub Result-cases :
    {A : Type 0} (r : Result A) → ((a : A) × (r ≡ ok a)) ⊎ ((e : Error) × (r ≡ err e))
Result-cases (ok a) = inl (a, refl)
Result-cases (err e) = inr (e, refl)

module _ {S : Type 0} {ctx_err : S → Option Error} {wait : ℕ → S → S} (Within : ℕ → S → Type 0)
    (has_deadline : HasDeadline ctx_err wait Within) {seconds n : ℕ} {s : S} where
  -- Where the context has not ended, its deadline is not reached.
  pub not_yet : Within (n - seconds) s → ctx_err s ≡ none → seconds < n
  not_yet h going = elim (Bool-cases (ltb seconds n)) [
    | inl later ↦ ground arith
    | inr over ↦
        let p : n - seconds ≡ 0 = ground arith in
        absurd (has_deadline.has_ended s (subst (λ m. Within m s) p h) going)
  ]

pub Waited-cases : (w : Waited) → (w ≡ came_up) ⊎ ((e : Error) × (w ≡ gave_up e))
Waited-cases came_up = inl refl
Waited-cases (gave_up e) = inr (e, refl)
