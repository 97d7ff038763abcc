-- ===== src/Resource/Execute.antt =====
-- internal/resource/executor.go: `Execute`.
pub mod Composition
pub mod Schedules
pub mod Failures
mod Tests
use pgedge_helm.Base.{
  ℕ, suc, ◌+◌, Bool, true, false, ◌||◌, List, [], ◌∷◌, Option, none, some, is_some, map,
}
use pgedge_helm.Base.Maps.{Map}
use pgedge_helm.Resource.{
  Identifier, Interface, Event, Action, create, update, delete, other, Error, create_failed,
  update_failed, delete_failed, unsupported_action, phase_failed,
}
use pgedge_helm.Resource.Plan.{plan}

-- `errgroup` keeps the first error.
abbrev pub first_of : Option Error → Option Error → Option Error
first_of none result = result
first_of (some e) result = some e

module _ {R W : Type 0} (api : Interface R W) where
  abbrev pub wrap : (Error → Error) → Option Error × W → Option Error × W
  wrap f (none, w) = (none, w)
  wrap f (some e, w) = (some (f e), w)

  -- The body of one goroutine. `cancelled` says that the group's context has ended.
  unfoldable pub run_event : Event R → Bool → W → Option Error × W
  run_event e cancelled w =
      let id = api.identifier e.resource in
      elim e.action [
        | create ↦ wrap (create_failed id) (api.create_resource e.resource cancelled w)
        | update ↦ wrap (update_failed id) (api.update_resource e.resource cancelled w)
        | delete ↦ wrap (delete_failed id) (api.delete_resource e.resource cancelled w)
        | other n ↦ (some (unsupported_action n id), w)
      ]

  -- `errgroup`: every goroutine of the phase runs, the first error ends the group's context and is
  -- what `Wait` returns. The goroutines are taken one after another, in the order of the slice.
  pub run_group : List (Event R) → Option Error → W → Option Error × W
  run_group [] first w = (first, w)
  run_group (e ∷ es) first w =
      let (result, w') = run_event e (is_some first) w in run_group es (first_of first result) w'

  unfoldable pub run_phase : List (Event R) → W → Option Error × W
  unfolding run_group run_event
  run_phase phase w = run_group phase none w

  pub execute_from : ℕ → List (List (Event R)) → W → Option Error × W
  execute_from i [] w = (none, w)
  execute_from i (phase ∷ phases) w =
      let (result, w') = run_phase phase w in
      let rest = execute_from (suc i) phases w' in
      elim result [ none ↦ rest | some e ↦ (some (phase_failed i e), w') ]

  unfoldable pub execute : List (List (Event R)) → W → Option Error × W
  unfolding execute_from run_phase
  execute phases w = execute_from 0 phases w
