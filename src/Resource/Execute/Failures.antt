-- ===== src/Resource/Execute/Failures.antt =====
-- `Execute` (internal/resource/executor.go): which error a phase returns, in any order of its goroutines.
use pgedge_helm.Base.{◌≡◌, false, List, none, some}
use pgedge_helm.Resource.{Interface, Event, Error}
use pgedge_helm.Resource.Execute.{run_event}
use pgedge_helm.Resource.Execute.Schedules.{Picks, Schedule}

module _ {R W : Type 0} (api : Interface R W) where
  -- Some of the events ran, and succeeded: which are left.
  pub data Ran : List (Event R) → W → List (Event R) → W → Type 0 where
    not_yet : (es : List (Event R)) (w : W) → Ran es w es w
    one :
        (es rest left : List (Event R)) (e : Event R) (w v reached : W)
        → Picks es e rest
        → run_event api e false w ≡ (none, v)
        → Ran rest v left reached
        → Ran es w left reached

  -- How a phase fails, in some order: behind events that succeeded, one event fails, under a context
  -- that has not ended. The others run under one that has.
  pub record FirstFailure (es : List (Event R)) (w : W) (err : Error) (after : W) : Type 0 where
    pub left : List (Event R)
    pub rest : List (Event R)
    pub failing : Event R
    pub reached : W
    pub ran : Ran es w left reached
    pub picked : Picks left failing rest
    pub failed : (run_event api failing false reached).0 ≡ some err
    pub others :
        Schedule api rest (some err) (run_event api failing false reached).1 (some err) after
