-- ===== src/Resource/Execute/Composition.antt =====
-- `Execute` (internal/resource/executor.go) runs the phases in sequence, up to the first failure.
use pgedge_helm.Base.{
  ℕ, suc, ◌+◌, ◌≡◌, refl, ap, ◌∙◌, List, [], ◌∷◌, ◌++◌, none, some, length, arith, Option-cases,
  inl, inr,
}
use pgedge_helm.Resource.{Interface, Event, Error, phase_failed}
use pgedge_helm.Resource.Execute.{run_phase, execute_from, execute}

module _ {R W : Type 0} (api : Interface R W) where
  -- How a run of phases fails: at one phase, behind phases that succeeded, and in the state that
  -- this phase left.
  pub record FailsAt (i : ℕ) (phases : List (List (Event R))) (w after : W) (err : Error)
      : Type 0 where
    pub before : List (List (Event R))
    pub phase : List (Event R)
    pub rest : List (List (Event R))
    pub reached : W
    pub cause : Error
    pub split : phases ≡ before ++ phase ∷ rest
    pub succeeded : execute_from api i before w ≡ (none, reached)
    pub failed : run_phase api phase reached ≡ (some cause, after)
    pub wrapped : err ≡ phase_failed (i + length before) cause

  execute_from-FailsAt :
      (i : ℕ) (phases : List (List (Event R))) (w after : W) (err : Error)
      → execute_from api i phases w ≡ (some err, after)
      → FailsAt i phases w after err
  unfolding execute_from
  execute_from-FailsAt i [] w after err e = absurd (cc)
  execute_from-FailsAt i (p ∷ ps) w after err e = elim (Option-cases (run_phase api p w).0) [
    | inl fine ↦
        let next : execute_from api (suc i) ps (run_phase api p w).1 ≡ (some err, after) =
          ground arith in
        let f = execute_from-FailsAt (suc i) ps (run_phase api p w).1 after err next in
        record {
          before = p ∷ f.before;
          phase = f.phase;
          rest = f.rest;
          reached = f.reached;
          cause = f.cause;
          split = ap (λ l. p ∷ l) f.split;
          succeeded = ground (arith, f.succeeded);
          failed = f.failed;
          wrapped = f.wrapped ∙ ap (λ n. phase_failed n f.cause) (omega arith);
        }
    | inr (cause, bad) ↦ record {
      before = [];
      phase = p;
      rest = ps;
      reached = w;
      cause = cause;
      split = refl;
      succeeded = refl;
      failed = ground arith;
      wrapped = ground arith;
    }
  ]

  -- When `Execute` fails, the phases in front of one phase succeeded, this phase failed, and the
  -- state is the one that it left: no later phase ran. The error names the phase.
  pub execute-FailsAt :
      (phases : List (List (Event R))) (w after : W) (err : Error)
      → execute api phases w ≡ (some err, after)
      → FailsAt 0 phases w after err
  unfolding execute
  execute-FailsAt phases w after err e = execute_from-FailsAt 0 phases w after err e
