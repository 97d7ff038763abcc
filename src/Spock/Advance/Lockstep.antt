-- ===== src/Spock/Advance/Lockstep.antt =====
-- The advances of a slot and of its origin: `Create` of internal/spock/replication_slot_advance.go and of
-- internal/spock/replication_origin_advance.go, one after the other.
use pgedge_helm.Base.{
  ℕ, zero, suc, ◌≡◌, refl, ap, sym, subst, Bool, false, [], ◌∷◌, Option, none, some, arith,
  Bool-cases, ◌⊎◌, inl, inr,
}
use pgedge_helm.Base.Text.{Text}
use pgedge_helm.Resource.{Error}
use pgedge_helm.Spock.Types.{Address, Conn}
use pgedge_helm.Spock.SlotAdvance
use pgedge_helm.Spock.SlotAdvance.{
  ReplicationSlotAdvanceFromCts, new_replication_slot_advance_from_cts,
}
use pgedge_helm.Spock.OriginAdvance
use pgedge_helm.Spock.OriginAdvance.{ReplicationOriginAdvance, new_replication_origin_advance}
use pgedge_helm.Spock.World.{
  Driver, Answer, answer, failure, World, lsn_from_commit_ts, slot_active, restart_lsn,
  lsn_at_or_before, advance_slot, ensure_origin, advance_origin,
}
use pgedge_helm.Spock.Flow.{finish}
use pgedge_helm.Spock.Advance.{
  advance_if_known, advance_origin_to, set_advanced_to, create_slot_advance, create_origin_advance,
}

abbrev said_yes : Answer Bool → Bool
said_yes (answer b) = b
said_yes (failure e) = false

abbrev text_of : Answer Text → Text
text_of (answer t) = t
text_of (failure e) = []

module _ {D : Type 0} (driver : Driver D) where
  -- The statement to advance the slot was the last, it succeeded, and its LSN was kept.
  abbrev SlotAdvanced : Address → ReplicationSlotAdvanceFromCts → World D → Type 0
  SlotAdvanced a r w =
      (d : D) × (driver.exec r.conn (advance_slot (SlotAdvance.slot_name r) (w.advanced_to a)) d
        ≡ (answer tt, w.databases))

  slot_outcome :
      (a : Address) (r : ReplicationSlotAdvanceFromCts) (t : Option ℕ) (w w1 : World D)
      → w.advanced_to a ≡ []
      → finish (advance_if_known driver a r t) w ≡ (none, w1)
      → (w1.advanced_to a ≡ []) ⊎ SlotAdvanced a r w1
  slot_outcome a r none w w1 h e = inl (ground arith)
  slot_outcome a r (some zero) w w1 h e = inl (ground arith)
  slot_outcome a r (some (suc n)) w w1 h e =
      let name = SlotAdvance.slot_name r in
      let q1 = driver.query_text r.conn (lsn_from_commit_ts name (suc n)) w.databases in
      let q2 = driver.query_bool r.conn (slot_active name) q1.1 in
      let q3 = driver.query_text r.conn (restart_lsn name) q2.1 in
      let q4 = driver.query_bool r.conn (lsn_at_or_before (text_of q1.0) (text_of q3.0)) q3.1 in
      elim (Bool-cases (said_yes q2.0)) [
        | inl active ↦ inl (ground arith)
        | inr idle ↦ elim (Bool-cases (said_yes q4.0)) [
          | inl reached ↦ inl (ground arith)
          | inr before ↦ inr (q4.1, ground arith)
        ]
      ]

  -- However the slot advance fails, it keeps no LSN.
  slot_failure :
      (a : Address) (r : ReplicationSlotAdvanceFromCts) (t : Option ℕ) (w w1 : World D)
      (err : Error)
      → w.advanced_to a ≡ []
      → finish (advance_if_known driver a r t) w ≡ (some err, w1)
      → w1.advanced_to a ≡ []
  slot_failure a r none w w1 err h e = ground arith
  slot_failure a r (some zero) w w1 err h e = ground arith
  slot_failure a r (some (suc n)) w w1 err h e = ground arith

  reset_empty : (a : Address) (w : World D) → (set_advanced_to driver a [] w).advanced_to a ≡ []
  reset_empty a w = ground arith

  -- When `Create` of a slot advance fails, `AdvancedToLSN` is empty.
  pub create_slot_advance_fails :
      (a : Address) (r : ReplicationSlotAdvanceFromCts) (w w1 : World D) (err : Error)
      → create_slot_advance driver a r w ≡ (some err, w1)
      → w1.advanced_to a ≡ []
  unfolding create_slot_advance
  create_slot_advance_fails a r w w1 err e =
      slot_failure a r (w.commit_ts r.lag_tracker) (set_advanced_to driver a [] w) w1 err
        (reset_empty a w) e

  -- Origin and slot agree: neither has moved, or the last statements moved both to one LSN.
  pub data InLockstep (a : Address) (r : ReplicationSlotAdvanceFromCts)
      (o : ReplicationOriginAdvance) (w1 w2 : World D) : Type 0 where
    untouched : w1.advanced_to a ≡ [] → w2 ≡ w1 → InLockstep a r o w1 w2
    moved :
        (d1 d2 : D)
        → driver.exec r.conn (advance_slot (SlotAdvance.slot_name r) (w1.advanced_to a)) d1
          ≡ (answer tt, w1.databases)
        → driver.exec o.conn (advance_origin (OriginAdvance.origin_name o) (w1.advanced_to a)) d2
          ≡ (answer tt, w2.databases)
        → InLockstep a r o w1 w2

  origin_skips :
      (o : ReplicationOriginAdvance) (lsn : Text) (w w2 : World D)
      → lsn ≡ []
      → finish (advance_origin_to driver o lsn) w ≡ (none, w2)
      → w2 ≡ w
  origin_skips o [] w w2 h e = ap (λ p. p.1) (sym e)
  origin_skips o (c ∷ cs) w w2 h e = absurd (ground arith)

  origin_outcome :
      (o : ReplicationOriginAdvance) (lsn : Text) (w w2 : World D)
      → finish (advance_origin_to driver o lsn) w ≡ (none, w2)
      → (lsn ≡ [])
        ⊎ ((d : D) × (driver.exec o.conn (advance_origin (OriginAdvance.origin_name o) lsn) d
              ≡ (answer tt, w2.databases)))
  origin_outcome o [] w w2 e = inl refl
  origin_outcome o (c ∷ cs) w w2 e = inr (
    (driver.exec o.conn (ensure_origin (OriginAdvance.origin_name o)) w.databases).1,
    ground arith,
  )

  -- When `Create` of a slot advance and then `Create` of the origin advance that reads it succeed:
  -- either the slot advance was skipped and the second did nothing, or the slot was advanced to an LSN
  -- and the origin to the same one.
  pub advance-InLockstep :
      (a : Address) (r : ReplicationSlotAdvanceFromCts) (o : ReplicationOriginAdvance)
      (w w1 w2 : World D)
      → o.slot_advance ≡ a
      → create_slot_advance driver a r w ≡ (none, w1)
      → create_origin_advance driver o w1 ≡ (none, w2)
      → InLockstep a r o w1 w2
  unfolding create_slot_advance create_origin_advance
  advance-InLockstep a r o w w1 w2 pointer e1 e2 =
      let at_a : finish (advance_origin_to driver o (w1.advanced_to a)) w1 ≡ (none, w2) =
        subst (λ b. finish (advance_origin_to driver o (w1.advanced_to b)) w1 ≡ (none, w2)) pointer
          e2 in
      elim (slot_outcome a r (w.commit_ts r.lag_tracker) (set_advanced_to driver a [] w) w1
        (reset_empty a w) e1) [
          | inl skipped ↦ untouched skipped (origin_skips o (w1.advanced_to a) w1 w2 skipped at_a)
          | inr (d1, slot_moved) ↦ elim (origin_outcome o (w1.advanced_to a) w1 w2 at_a) [
            | inl empty ↦ untouched empty (origin_skips o (w1.advanced_to a) w1 w2 empty at_a)
            | inr (d2, origin_moved) ↦ moved d1 d2 slot_moved origin_moved
          ]
        ]

  -- Both are named alike where they stand for the same pair of nodes in the same database.
  pub origin_name-slot_name :
      (provider subscriber db : Text) (a b : Address) (c d : Conn)
      → OriginAdvance.origin_name (new_replication_origin_advance provider subscriber db a c)
        ≡ SlotAdvance.slot_name (new_replication_slot_advance_from_cts provider subscriber db b d)
  unfolding SlotAdvance.slot_name OriginAdvance.origin_name new_replication_origin_advance
      new_replication_slot_advance_from_cts
  origin_name-slot_name provider subscriber db a b c d = refl
