-- ===== src/Job.antt =====
-- cmd/init-spock/main.go: the job, which waits, connects, resets and reconciles.
pub mod Timeout
pub mod Keeps
pub mod Connected
pub mod Untouched
pub mod Ends
pub mod Success
mod Tests
use pgedge_helm.Base.{ℕ, List, [], ◌∷◌, Option, none, some, if◌then◌else◌}
use pgedge_helm.Base.Text.{Text, bytes, text_key}
use pgedge_helm.Base.Maps.{insert}
use pgedge_helm.Base.Int.{ℤ}
use pgedge_helm.Config.{Node, Config, Surroundings, load, loaded}
use pgedge_helm.Config as Config
use pgedge_helm.Resource.{Error}
use pgedge_helm.Resource.Reconcile.{reconcile}
use pgedge_helm.Io.{Result, ok, err, came_up, gave_up}
use pgedge_helm.Connections.{Pgx, wait_ready, connect_pool}
use pgedge_helm.Readiness.{Kubernetes, wait_for_clusters}
use pgedge_helm.Spock.Desired.{Conns}
use pgedge_helm.Spock.World.{Driver, World, no_status}
use pgedge_helm.Spock.Reset.{reset_spock, reset_bootstrapped_nodes}
use pgedge_helm.Spock.Reconcile.{spock_api, spock_reconciler}
use pgedge_helm.Job.Timeout.{timeout}

-- All that the process meets, over one state `D`.
pub record Outside (D : Type 0) : Type 0 where
  pub around : Surroundings
  pub kubernetes : Kubernetes D
  pub pgx : Pgx D
  pub driver : Driver D
  -- `context.WithTimeout`, and the cancel function that it returns
  pub with_timeout : ℤ → D → D
  pub cancel : D → D

-- What `run` returns: the error of `Load`, or another.
pub data Failure : Type 0 where
  not_loaded : Config.Error → Failure
  failed : Error → Failure

abbrev pub as_failure : Option Error → Option Failure
as_failure none = none
as_failure (some e) = some (failed e)

module _ {D : Type 0} (outside : Outside D) where
  -- The loop over the nodes. Behind the result are the pools to close, the last one first.
  unfoldable pub connect_nodes :
      ℕ → Config → List Node → Conns → List ℕ → D → Option (Result Conns × List ℕ × D)
  connect_nodes fuel cfg [] conns opened d = some (ok conns, opened, d)
  connect_nodes fuel cfg (n ∷ ns) conns opened d =
      elim (wait_ready outside.pgx fuel n.hostname n.internal_hostname cfg.db_name cfg.admin_user
        d) [
          | none ↦ none
          | some (gave_up e, d1) ↦ some (err e, opened, d1)
          | some (came_up, d1) ↦
              let (result, d2) =
                connect_pool outside.pgx n.hostname n.internal_hostname cfg.db_name cfg.admin_user
                  d1 in
              elim result [
                | err e ↦ some (err e, opened, d2)
                | ok pool ↦ connect_nodes fuel cfg ns (insert n.name pool conns) (pool ∷ opened) d2
              ]
        ]

  unfoldable pub close_all : List ℕ → D → D
  close_all [] d = d
  close_all (pool ∷ pools) d = close_all pools (outside.pgx.close_pool pool d)

  abbrev pub reset_step : Config → Conns → World D → Option Error × World D
  reset_step cfg conns =
      if cfg.reset_spock
      then reset_spock outside.driver cfg conns
      else reset_bootstrapped_nodes outside.driver cfg conns

  -- Steps 3 and 4.
  unfoldable pub set_up : ℕ → Config → Conns → World D → Option Error × World D
  set_up fuel cfg conns w =
      let (result, v) = reset_step cfg conns w in
      elim result [
        | some e ↦ (some e, v)
        | none ↦
            reconcile (spock_api outside.driver fuel) (spock_reconciler outside.driver cfg conns) v
      ]

  -- Before an object is made.
  abbrev pub fresh : D → World D
  fresh d = record {
    next = 0;
    status = λ a. no_status;
    lsn = λ a. [];
    commit_ts = λ a. none;
    advanced_to = λ a. [];
    databases = d;
  }

  -- Steps 1 to 4, and the deferred `pool.Close()`.
  unfoldable pub configure : ℕ → Config → D → Option (Option Error × D)
  configure fuel cfg d =
      elim (wait_for_clusters outside.kubernetes fuel cfg.namespace cfg.app_name d) [
        | none ↦ none
        | some (gave_up e, d1) ↦ some (some e, d1)
        | some (came_up, d1) ↦ elim (connect_nodes fuel cfg cfg.nodes [] [] d1) [
          | none ↦ none
          | some (err e, opened, d2) ↦ some (some e, close_all opened d2)
          | some (ok conns, opened, d2) ↦
              let (result, w) = set_up fuel cfg conns (fresh d2) in
              some (result, close_all opened w.databases)
        ]
      ]

  abbrev pub timeout_set : Option ℤ
  timeout_set = timeout (outside.around.getenv (bytes "INIT_SPOCK_TIMEOUT"))

  abbrev pub started : Option ℤ → D → D
  started none d = d
  started (some t) d = outside.with_timeout t d

  abbrev pub ended : Option ℤ → Option (Option Error × D) → Option (Option Failure × D)
  ended t none = none
  ended none (some (result, d)) = some (as_failure result, d)
  ended (some t) (some (result, d)) = some (as_failure result, outside.cancel d)

  -- The loops run on fuel, and the job is `none` without.
  unfoldable pub run : ℕ → D → Option (Option Failure × D)
  run fuel d = elim (load outside.around (bytes "/config/pgedge.yaml")) [
    | Config.failed e ↦ some (some (not_loaded e), d)
    | loaded cfg ↦ ended timeout_set (configure fuel cfg (started timeout_set d))
  ]

  -- `main`, as the exit code of the process.
  abbrev pub exit_code : Option Failure → ℕ
  exit_code none = 0
  exit_code (some e) = 1
