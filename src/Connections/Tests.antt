-- ===== src/Connections/Tests.antt =====
-- A node that takes connections within the last ten seconds before the deadline, which is the state.
use pgedge_helm.Base.{ℕ, zero, suc, ◌-◌, ◌≤◌, ◌≡◌, ◌≢◌, refl, [], Option, some, none, arith}
use pgedge_helm.Base.Text.{bytes}
use pgedge_helm.Io.{Result, ok, err, HasDeadline, Waited}
use pgedge_helm.Resource.{Error, message}
use pgedge_helm.Connections.{Pgx, build_conn_config, connect, wait_ready}
use pgedge_helm.Connections.Ends.{attempt, wait_ready_sound, wait_ready_ends}

abbrev deadline_exceeded : ℕ → Option Error
deadline_exceeded zero = some (message (bytes "context deadline exceeded"))
deadline_exceeded (suc n) = none

abbrev accepts : ℕ → Result ℕ
accepts left = elim (left - 10) [ zero ↦ ok left | suc _ ↦ err (message (bytes "refused")) ]

abbrev starting : Pgx ℕ
starting = record {
  load_key_pair = λ cert key n. (ok 0, n);
  parse_config = λ s n. (ok (record { conn_string = s; tls_config = none }), n);
  parse_pool_config = λ s n. (
    ok (record { pool_string = s; conn_config = record { conn_string = s; tls_config = none } }),
    n,
  );
  connect_config = λ cfg n. (accepts n, n);
  close = λ conn n. n;
  new_pool = λ cfg n. (ok 0, n);
  close_pool = λ pool n. n;
  ctx_err = deadline_exceeded;
  wait = λ seconds n. n - seconds;
}

abbrev Within : ℕ → ℕ → Type 0
Within n left = left ≤ n

ends_at_zero : (left : ℕ) → left ≤ 0 → deadline_exceeded left ≢ none
ends_at_zero zero h e = absurd (ground arith)
ends_at_zero (suc left) h e = absurd (omega arith)

starting-HasDeadline : HasDeadline starting.ctx_err starting.wait Within
starting-HasDeadline = record {
  wait_ticks = λ seconds n left h. omega (arith, h);
  has_ended = ends_at_zero;
}

wait_ready_sound_example :
    (asked_at conn connected : ℕ) × (attempt starting
        (bytes "n1")
        []
        (bytes "app")
        (bytes "admin")
        asked_at
      ≡ (ok conn, connected))
    × (9 ≡ connected)
unfolding wait_ready connect build_conn_config
wait_ready_sound_example =
    wait_ready_sound starting (bytes "n1") [] (bytes "app") (bytes "admin") 3 15 9 refl

wait_ready_ends_example :
    (w : Waited) × (after : ℕ) × (wait_ready starting 6
        (bytes "n1")
        []
        (bytes "app")
        (bytes "admin")
        16
      ≡ some (w, after))
unfolding connect build_conn_config
wait_ready_ends_example =
    wait_ready_ends starting (bytes "n1") [] (bytes "app") (bytes "admin") Within
      starting-HasDeadline (λ n s h. h) 6 17 16 (omega arith) (omega arith)
