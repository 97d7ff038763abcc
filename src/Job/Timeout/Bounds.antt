-- ===== src/Job/Timeout/Bounds.antt =====
-- The time-out of the job as a duration, and where it leaves the range of one.
use pgedge_helm.Base.{
  ℕ, zero, suc, ◌-◌, ◌*◌, ◌≤◌, ◌<◌, ◌≡◌, ◌^◌, some, arith, if◌then◌else◌, if◌then◌else◌,
}
use pgedge_helm.Base.Int.{pos, negsuc}
use pgedge_helm.Base.Decimal.{decimal, atoi-decimal, ltb}
use pgedge_helm.Job.Timeout.{timeout, grace_period}

-- A time-out of `n` seconds, up to the 9223372036 that a `time.Duration` can hold, gives the context
-- a positive duration of `d` whole seconds: `n` less 30 where `n` is above 30, and `n` otherwise.
pub timeout_bounds :
    (n : ℕ)
    → 0 < n
    → n ≤ 9223372036
    → (d : ℕ) × (timeout (decimal n) ≡ some (pos (d * 1000000000)))
      × (0 < d)
      × (d ≡ (if ltb 30 n then n - 30 else n))
unfolding timeout
timeout_bounds zero h k = absurd (ground arith)
timeout_bounds (suc n) h k =
    let d = suc n - grace_period (suc n) in
    (d, ground (arith, atoi-decimal (suc n) (omega arith)), ground arith, ground arith)

-- A time-out from 9223372067 to 18446744103 seconds gives a negative duration: the product of the
-- seconds and the nanoseconds of one wraps around.
pub timeout_wraps :
    (n : ℕ) → 9223372067 ≤ n → n ≤ 18446744103 → (m : ℕ) × (timeout (decimal n) ≡ some (negsuc m))
unfolding timeout
timeout_wraps zero h k = absurd (omega arith)
timeout_wraps (suc n) h k =
    let m = 2 ^ 64 - 1 - (suc n - 30) * 1000000000 in
    (m, ground (arith, atoi-decimal (suc n) (omega arith)))
