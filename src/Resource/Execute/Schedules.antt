-- ===== src/Resource/Execute/Schedules.antt =====
-- `Execute` (internal/resource/executor.go) with the goroutines of a phase in any order.
use pgedge_helm.Base.{
  ℕ, suc, ◌≡◌, ◌↔◌, refl, subst, true, false, List, [], ◌∷◌, Option, none, some, is_some, arith,
  All, Option-cases, inl, inr,
}
use pgedge_helm.Resource.{Interface, Event, Error}
use pgedge_helm.Resource.Execute.{first_of, run_event, run_group, run_phase, execute_from, execute}

-- One of the events, and the others.
pub data Picks {R : Type 0} : List (Event R) → Event R → List (Event R) → Type 0 where
  here : {e : Event R} {es : List (Event R)} → Picks (e ∷ es) e es
  there : {x e : Event R} {es rest : List (Event R)} → Picks es e rest → Picks (x ∷ es) e (x ∷ rest)

module _ {R W : Type 0} (api : Interface R W) where
  -- The goroutines that are left run one by one, any of them next, from a world and the first error to
  -- a world and the first error.
  pub data Schedule : List (Event R) → Option Error → W → Option Error → W → Type 0 where
    done : (first : Option Error) (w : W) → Schedule [] first w first w
    next :
        (es rest : List (Event R)) (e : Event R) (first last : Option Error) (w after : W)
        → Picks es e rest
        → Schedule rest
            (first_of first (run_event api e (is_some first) w).0)
            (run_event api e (is_some first) w).1
            last
            after
        → Schedule es first w last after

  -- The phases, one behind the other.
  pub data Schedules : List (List (Event R)) → W → W → Type 0 where
    finished : (w : W) → Schedules [] w w
    phase :
        (es : List (Event R)) (phases : List (List (Event R))) (w between after : W)
        → Schedule es none w none between
        → Schedules phases between after
        → Schedules (es ∷ phases) w after

  -- Where the first succeeds and then the second, the second may go first.
  abbrev pub Commute : Event R → Event R → Type 0
  Commute e x =
      (w v u : W)
      → run_event api e false w ≡ (none, v)
      → run_event api x false v ≡ (none, u)
      → (t : W) × (run_event api x false w ≡ (none, t)) × (run_event api e false t ≡ (none, u))

  -- What may run in front of an earlier event of its phase.
  abbrev pub Commuting : List (Event R) → Type 0
  Commuting [] = Unit
  Commuting (x ∷ es) = All (λ e. Commute e x) es × Commuting es

  run_group_stays :
      (es : List (Event R)) (x : Error) (w : W) → (run_group api es (some x) w).0 ≡ some x
  unfolding run_group
  run_group_stays [] x w = refl
  run_group_stays (e ∷ es) x w = run_group_stays es x (run_event api e true w).1

  pub first_stays :
      (es : List (Event R)) (x : Error) (first last : Option Error) (w after : W)
      → first ≡ some x
      → Schedule es first w last after
      → last ≡ some x
  first_stays es x _ _ w after e (done _ _) = e
  first_stays es x first last w after e (next _ rest ev _ _ _ _ p s) =
      first_stays rest x (first_of first (run_event api ev (is_some first) w).0) last
        (run_event api ev (is_some first) w).1 after (ground arith) s

  picked_All :
      (P : Event R → Type 0) (es rest : List (Event R)) (e : Event R)
      → Picks es e rest
      → All P es
      → P e × All P rest
  picked_All P [] rest e p k = elim p [ ]
  picked_All P (e ∷ es) _ _ here (h, k) = (h, k)
  picked_All P (x ∷ es) (_ ∷ rest) e (there p) (h, k) =
      let (he, hs) = picked_All P es rest e p k in (he, (h, hs))

  picked-Commuting :
      (es rest : List (Event R)) (e : Event R) → Picks es e rest → Commuting es → Commuting rest
  picked-Commuting [] rest e p k = elim p [ ]
  picked-Commuting (e ∷ es) _ _ here (h, k) = k
  picked-Commuting (x ∷ es) (_ ∷ rest) e (there p) (h, k) =
      ((picked_All (λ y. Commute y x) es rest e p h).1, picked-Commuting es rest e p k)

  -- An event that went first may go in its turn.
  in_turn :
      (es rest : List (Event R)) (e : Event R) (w v after : W)
      → Commuting es
      → Picks es e rest
      → run_event api e false w ≡ (none, v)
      → run_group api rest none v ≡ (none, after)
      → run_group api es none w ≡ (none, after)
  unfolding run_group
  in_turn [] rest e w v after k p h g = elim p [ ]
  in_turn (e ∷ es) _ _ w v after k here h g = ground arith
  in_turn (x ∷ es) (_ ∷ rest) e w v after (swaps, k) (there p) h g =
      let r = run_event api x false v in
      elim (Option-cases r.0) [
        | inr (err, failed) ↦ absurd (ground (arith, run_group_stays rest err r.1))
        | inl fine ↦
            let (swap, _) = picked_All (λ y. Commute y x) es rest e p swaps in
            let (t, hx_first, he_then) = swap w v r.1 h (ground arith) in
            let rest_runs : run_group api es none t ≡ (none, after) =
              in_turn es rest e t r.1 after k p he_then (ground arith) in
            ground arith
      ]

  any_order_agrees :
      (es : List (Event R)) (first last : Option Error) (w after : W)
      → Commuting es
      → first ≡ none
      → last ≡ none
      → Schedule es first w last after
      → run_group api es none w ≡ (none, after)
  unfolding run_group
  any_order_agrees _ _ _ _ _ k f l (done _ w) = refl
  any_order_agrees es first last w after k f l (next _ rest e _ _ _ _ p s) =
      let r = run_event api e (is_some first) w in
      let ks = picked-Commuting es rest e p k in
      elim (Option-cases r.0) [
        | inr (err, failed) ↦ absurd (
            ground
              (arith, first_stays rest err (first_of first r.0) last r.1 after (ground arith) s))
        | inl fine ↦
            in_turn es rest e w r.1 after k p (ground arith)
              (any_order_agrees rest (first_of first r.0) last r.1 after ks (ground arith) l s)
      ]

  -- The order of the slice is one of the orders.
  run_group-Schedule :
      (es : List (Event R)) (first : Option Error) (w : W)
      → Schedule es first w (run_group api es first w).0 (run_group api es first w).1
  unfolding run_group
  run_group-Schedule [] first w = done first w
  run_group-Schedule (e ∷ es) first w = next (e ∷ es) es e first _ w _ here (
      run_group-Schedule es (first_of first (run_event api e (is_some first) w).0)
        (run_event api e (is_some first) w).1)

  all_orders_agree :
      (i : ℕ) (phases : List (List (Event R))) (w after : W)
      → All Commuting phases
      → Schedules phases w after
      → execute_from api i phases w ≡ (none, after)
  unfolding execute_from run_phase
  all_orders_agree i [] _ _ k (finished w) = refl
  all_orders_agree i (es ∷ phases) w after (ke, k) (phase _ _ _ between _ s t) = ground (
    arith,
    any_order_agrees es none none w between ke refl refl s,
    all_orders_agree (suc i) phases between after k t,
  )

  execute_from-Schedules :
      (i : ℕ) (phases : List (List (Event R))) (w after : W)
      → execute_from api i phases w ≡ (none, after)
      → Schedules phases w after
  unfolding execute_from run_phase
  execute_from-Schedules i [] w after h = subst (Schedules [] w) (ground arith) (finished w)
  execute_from-Schedules i (es ∷ phases) w after h =
      let r = run_group api es none w in
      elim (Option-cases r.0) [
        | inr (err, failed) ↦ absurd (ground arith)
        | inl fine ↦
            phase es phases w r.1 after
              (subst (λ x. Schedule es none w x r.1) fine (run_group-Schedule es none w))
              (execute_from-Schedules (suc i) phases r.1 after (ground arith))
      ]

  -- A run of `Execute` that succeeds is what every order of the goroutines in each phase comes to,
  -- where an event that succeeds behind an earlier one of its phase may as well run in front of it:
  -- the order of the slices succeeds, from a world to a world, exactly when there is an order that
  -- does. Each goroutine runs as one step.
  pub execute-Schedules :
      (phases : List (List (Event R))) (w after : W)
      → All Commuting phases
      → (execute api phases w ≡ (none, after)) ↔ Schedules phases w after
  unfolding execute
  execute-Schedules phases w after k =
      (execute_from-Schedules 0 phases w after, all_orders_agree 0 phases w after k)
