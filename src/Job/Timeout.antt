-- ===== src/Job/Timeout.antt =====
-- The time-out of `run` (cmd/init-spock/main.go), from `INIT_SPOCK_TIMEOUT`.
pub mod Bounds
use pgedge_helm.Base.{ℕ, zero, suc, ◌+◌, ◌-◌, ◌*◌, ◌%◌, ◌^◌, Option, none, some, if◌then◌else◌}
use pgedge_helm.Base.Text.{Text}
use pgedge_helm.Base.Int.{ℤ, pos, negsuc}
use pgedge_helm.Base.Decimal.{atoi, ltb, leb}

-- A product of type `int64`, which wraps around.
abbrev pub wrap64 : ℕ → ℤ
wrap64 n = let m = n % 2 ^ 64 in if ltb m (2 ^ 63) then pos m else negsuc (2 ^ 64 - 1 - m)

-- A `time.Duration` of so many seconds, in nanoseconds.
abbrev pub seconds : ℕ → ℤ
seconds n = wrap64 (n * 1000000000)

abbrev pub grace_period : ℕ → ℕ
grace_period timeout_sec = if leb timeout_sec 30 then 0 else 30

abbrev pub timeout_of : ℤ → Option ℤ
timeout_of (pos zero) = none
timeout_of (pos (suc n)) = some (seconds (suc n - grace_period (suc n)))
timeout_of (negsuc n) = none

-- What `context.WithTimeout` is called with, if it is called. `atoi` refuses the empty text.
unfoldable pub timeout : Text → Option ℤ
timeout timeout_str = elim (atoi timeout_str) [ none ↦ none | some n ↦ timeout_of n ]
