-- ===== src/Spock/SlotAdvance.antt =====
-- internal/spock/replication_slot_advance.go: `ReplicationSlotAdvanceFromCts`. Its status and the LSN that it advanced to are kept in the world.
use pgedge_helm.Base.{List, [], ◌∷◌}
use pgedge_helm.Base.Text.{Text}
use pgedge_helm.Resource.{Identifier}
use pgedge_helm.Spock.Names.{pair_id, spock_slot_name}
use pgedge_helm.Spock.Types.{
  Conn, Address, ident, resource_type_replication_slot_advance_from_cts, resource_type_node,
  resource_type_lag_tracker_commit_ts,
}

pub record ReplicationSlotAdvanceFromCts : Type 0 where
  pub provider_name : Text
  pub subscriber_name : Text
  pub db_name : Text
  pub lag_tracker : Address
  pub conn : Conn

unfoldable pub new_replication_slot_advance_from_cts :
    Text → Text → Text → Address → Conn → ReplicationSlotAdvanceFromCts
new_replication_slot_advance_from_cts provider_name subscriber_name db_name lag_tracker conn =
    record {
      provider_name = provider_name;
      subscriber_name = subscriber_name;
      db_name = db_name;
      lag_tracker = lag_tracker;
      conn = conn;
    }

unfoldable pub slot_name : ReplicationSlotAdvanceFromCts → Text
slot_name r = spock_slot_name r.db_name r.provider_name r.subscriber_name

unfoldable pub identifier : ReplicationSlotAdvanceFromCts → Identifier
identifier r =
    ident resource_type_replication_slot_advance_from_cts
      (pair_id r.provider_name r.subscriber_name)

unfoldable pub dependencies : ReplicationSlotAdvanceFromCts → List Identifier
dependencies r =
    ident resource_type_node r.provider_name
    ∷ ident resource_type_lag_tracker_commit_ts (pair_id r.provider_name r.subscriber_name)
    ∷ []
