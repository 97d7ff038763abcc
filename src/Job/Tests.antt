-- ===== src/Job/Tests.antt =====
-- The job at a site with one node that is restored from a backup.
mod OneNode
mod SlowSite
use pgedge_helm.Base.{
  ℕ, zero, suc, ◌+◌, ◌-◌, ◌≤◌, ◌<◌, ◌*◌, ◌/◌, ◌≡◌, ◌≢◌, ◌⊎◌, refl, true, List, [], ◌∷◌, ◌++◌,
  Option, some, none, arith, if◌then◌else◌, ◌==◌,
}
use pgedge_helm.Base.Int.{ℤ, pos, negsuc}
use pgedge_helm.Base.Decimal.{decimal, ltb, atoi}
use pgedge_helm.Base.Text.{bytes, text_key, text_eq}
use pgedge_helm.Config.{Config, Node, Surroundings, load, loaded, parse_bool, load_nodes}
use pgedge_helm.Io.{ok, HasDeadline}
use pgedge_helm.Resource.{Error, message, identifier_eq}
use pgedge_helm.Connections.{
  wait_ready, connect, build_conn_config, connect_pool, build_pool_config,
}
use pgedge_helm.Readiness.{healthy_phase, wait_for_clusters, wait_for_all}
use pgedge_helm.Spock.World.{
  Driver, Statement, answer, drop_extension, terminate_walsenders, drop_spock_slots,
  drop_spock_origins, create_extension, node_create_always,
}
use pgedge_helm.Spock.Changes.{dsn_of}
use pgedge_helm.Job.{Outside, Failure, as_failure, run, configure, connect_nodes, close_all, set_up}
use pgedge_helm.Spock.Reset.{reset_bootstrapped_nodes, reset_node}
use pgedge_helm.Spock.Repset.{restore_repsets, backup_repsets}
use pgedge_helm.Resource.Reconcile.{reconcile}
use pgedge_helm.Spock.Desired.{
  compute_desired, add_pairs, add_new_nodes, add_users_and_nodes, put, new_nodes,
}
use pgedge_helm.Spock.Refresh.{
  refresh_actual, refresh_desired, discover_orphans, discover_orphan_slots, add_orphan_slots,
  discover_orphan_nodes, add_orphan_nodes, check_slot_health, check_entries, slot_missing,
  subscription_of,
}
use pgedge_helm.Resource.Plan.{plan, buckets}
use pgedge_helm.Resource.Execute.{execute}
use pgedge_helm.Spock.Object.{body_identifier}
use pgedge_helm.Spock.Methods.{refresh_body}
use pgedge_helm.Spock.SpockNode.{new_spock_node}
use pgedge_helm.Spock.User.{new_pgedge_user}
use pgedge_helm.Job.Tests.OneNode.{
  Site, settings, site, IsUntouched, site-Keeps, Within, site-HasDeadline, site-Keeps-Within,
  at_once_sets,
}
use pgedge_helm.Job.Timeout.{timeout}
use pgedge_helm.Job.Timeout.Bounds.{timeout_bounds, timeout_wraps}
use pgedge_helm.Job.Keeps.{Keeps}
use pgedge_helm.Job.Untouched.{Prepared, run-Prepared}
use pgedge_helm.Job.Ends.{run_ends}

timeout_bounds_example :
    (d : ℕ) × (timeout (decimal 7200) ≡ some (pos (d * 1000000000)))
    × (0 < d)
    × (d ≡ (if ltb 30 7200 then 7200 - 30 else 7200))
timeout_bounds_example = timeout_bounds 7200 (omega arith) (omega arith)

timeout_wraps_example : (m : ℕ) × (timeout (decimal 10000000000) ≡ some (negsuc m))
timeout_wraps_example = timeout_wraps 10000000000 (omega arith) (omega arith)

run_ends_example :
    (result : Option Failure) × (after : Site) × (run site 21 (none, []) ≡ some (result, after))
unfolding text_eq
run_ends_example =
    run_ends site Within site-Keeps-Within site-HasDeadline site-HasDeadline 21 60 (omega arith)
      (omega arith) refl at_once_sets (omega arith) (none, [])

-- The statements of `resetNode`.
abbrev reset_statements : List Statement
reset_statements =
    drop_extension
    ∷ terminate_walsenders
    ∷ drop_spock_slots
    ∷ drop_spock_origins
    ∷ create_extension
    ∷ node_create_always (bytes "n1") (dsn_of (bytes "n1") (bytes "app") (bytes "pgedge"))
    ∷ []

job_runs : run site 21 (none, []) ≡ some (none, (some 30, reset_statements))
unfolding run text_eq configure connect_nodes close_all set_up timeout load load_nodes atoi
    wait_for_clusters wait_for_all wait_ready connect build_conn_config connect_pool
    build_pool_config reset_bootstrapped_nodes reset_node restore_repsets backup_repsets reconcile
    compute_desired refresh_actual plan execute add_pairs decimal parse_bool refresh_desired
    add_new_nodes add_users_and_nodes put discover_orphans discover_orphan_slots add_orphan_slots
    discover_orphan_nodes add_orphan_nodes check_slot_health check_entries slot_missing
    subscription_of new_nodes identifier_eq body_identifier refresh_body buckets new_spock_node
    new_pgedge_user
job_runs = refl

abbrev success : Option Failure
success = none

run-Prepared_example :
    (IsUntouched (some 30, reset_statements) × (success ≢ none))
    ⊎ ((cfg : Config) × (left_with : Option Error) × (load settings (bytes "/config/pgedge.yaml")
          ≡ loaded cfg)
        × (success ≡ as_failure left_with)
        × Prepared site IsUntouched site-Keeps 21 cfg left_with)
run-Prepared_example =
    run-Prepared site IsUntouched site-Keeps 21 (none, []) refl success (some 30, reset_statements)
      job_runs
