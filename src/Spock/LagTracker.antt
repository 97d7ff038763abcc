-- ===== src/Spock/LagTracker.antt =====
-- internal/spock/lag_tracker_commit_ts.go: `LagTrackerCommitTimestamp`. Its status and its commit timestamp are kept in the world.
use pgedge_helm.Base.{List, [], ◌∷◌, ◌++◌}
use pgedge_helm.Base.Text.{Text}
use pgedge_helm.Resource.{Identifier}
use pgedge_helm.Spock.Names.{pair_id}
use pgedge_helm.Spock.Types.{Conn, ident, resource_type_lag_tracker_commit_ts, resource_type_node}

pub record LagTrackerCommitTimestamp : Type 0 where
  pub origin_name : Text
  pub receiver_name : Text
  pub conn : Conn
  pub extra_deps : List Identifier

unfoldable pub new_lag_tracker_commit_timestamp :
    Text → Text → Conn → List Identifier → LagTrackerCommitTimestamp
new_lag_tracker_commit_timestamp origin_name receiver_name conn extra_deps = record {
  origin_name = origin_name;
  receiver_name = receiver_name;
  conn = conn;
  extra_deps = extra_deps;
}

unfoldable pub identifier : LagTrackerCommitTimestamp → Identifier
identifier r = ident resource_type_lag_tracker_commit_ts (pair_id r.origin_name r.receiver_name)

unfoldable pub dependencies : LagTrackerCommitTimestamp → List Identifier
dependencies r = (ident resource_type_node r.receiver_name ∷ []) ++ r.extra_deps
