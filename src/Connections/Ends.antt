-- ===== src/Connections/Ends.antt =====
-- `WaitReady` (internal/pg/pg.go) ends by the deadline of its context, and when it ends well.
use pgedge_helm.Base.{ℕ, zero, suc, ◌-◌, ◌*◌, ◌<◌, ◌≡◌, some, arith, Option-cases, inl, inr, ◌++◌}
use pgedge_helm.Base.Text.{Text, bytes}
use pgedge_helm.Io.{Result, ok, Result-cases, HasDeadline, not_yet, Waited, came_up, gave_up}
use pgedge_helm.Resource.{context}
use pgedge_helm.Connections.{Pgx, connect_host, connect, wait_ready}

module _ {S : Type 0} (pgx : Pgx S) (hostname internal_hostname db_name user : Text) where
  abbrev pub attempt : S → Result ℕ × S
  attempt = connect pgx (connect_host hostname internal_hostname) db_name user

  -- When `WaitReady` ends with success, its last attempt to connect to the internal host of the node,
  -- or to its host where it has none, succeeded, and the connection was closed.
  pub wait_ready_sound :
      (fuel : ℕ) (s after : S)
      → wait_ready pgx fuel hostname internal_hostname db_name user s ≡ some (came_up, after)
      → (asked_at : S) × (conn : ℕ) × (connected : S) × (attempt asked_at ≡ (ok conn, connected))
        × (after ≡ pgx.close conn connected)
  unfolding wait_ready
  wait_ready_sound zero s after h = absurd (ground arith)
  wait_ready_sound (suc fuel) s after h =
      let r = attempt s in
      let s2 = pgx.wait 3 r.1 in
      elim (Result-cases r.0) [
        | inl (conn, e) ↦ (s, conn, r.1, ground arith, ground arith)
        | inr (e, refused) ↦ elim (Option-cases (pgx.ctx_err s2)) [
          | inl going ↦ wait_ready_sound fuel s2 after (ground arith)
          | inr (x, ended) ↦ absurd (ground arith)
        ]
      ]

  -- `WaitReady` ends, whatever the node does, where the context has a deadline and to connect does not
  -- put it off: it tries every 3 seconds, and one attempt more than fit in the time to the deadline is
  -- enough.
  pub wait_ready_ends :
      (Within : ℕ → S → Type 0)
      → HasDeadline pgx.ctx_err pgx.wait Within
      → ((n : ℕ) (s : S) → Within n s → Within n (attempt s).1)
      → (fuel n : ℕ) (s : S) → Within n s
      → n < 3 * fuel
      → (w : Waited) × (after : S) × (wait_ready pgx fuel hostname internal_hostname db_name user s
          ≡ some (w, after))
  unfolding wait_ready
  wait_ready_ends Within has_deadline attempt_keeps zero n s h k = absurd (omega arith)
  wait_ready_ends Within has_deadline attempt_keeps (suc fuel) n s h k =
      let r = attempt s in
      let s2 = pgx.wait 3 r.1 in
      let soon = has_deadline.wait_ticks 3 n r.1 (attempt_keeps n s h) in
      elim (Result-cases r.0) [
        | inl (conn, e) ↦ (came_up, pgx.close conn r.1, ground arith)
        | inr (_, refused) ↦ elim (Option-cases (pgx.ctx_err s2)) [
          | inr (e, ended) ↦
              (gave_up (context (bytes "timed out waiting for " ++ hostname) e), s2, ground arith)
          | inl going ↦
              let later : 3 < n = not_yet Within has_deadline soon going in
              let (w, after, e) =
                wait_ready_ends Within has_deadline attempt_keeps fuel (n - 3) s2 soon
                  (omega arith) in
              (w, after, ground arith)
        ]
      ]
