-- ===== src/Spock/Types.antt =====
-- internal/spock/desired.go: the type names of the resources.
use pgedge_helm.Base.{ℕ, Option}
use pgedge_helm.Base.Text.{Text, bytes}
use pgedge_helm.Resource.{Identifier}

-- A pool of connections to a node (pgx), as a handle. A missing entry of the map is nil.
abbrev pub Conn : Type 0
Conn = Option ℕ

-- Where an object's fields that change are kept: the pointer to it.
abbrev pub Address : Type 0
Address = ℕ

abbrev pub ident : Text → Text → Identifier
ident type id = record { type = type; id = id }

abbrev pub resource_type_user : Text
resource_type_user = bytes "spock.user"

abbrev pub resource_type_node : Text
resource_type_node = bytes "spock.node"

abbrev pub resource_type_replication_slot : Text
resource_type_replication_slot = bytes "spock.replicationslot"

abbrev pub resource_type_subscription : Text
resource_type_subscription = bytes "spock.subscription"

abbrev pub resource_type_replication_slot_create : Text
resource_type_replication_slot_create = bytes "spock.replication_slot_create"

abbrev pub resource_type_sync_event : Text
resource_type_sync_event = bytes "spock.sync_event"

abbrev pub resource_type_wait_for_sync_event : Text
resource_type_wait_for_sync_event = bytes "spock.wait_for_sync_event"

abbrev pub resource_type_lag_tracker_commit_ts : Text
resource_type_lag_tracker_commit_ts = bytes "spock.lag_tracker_commit_ts"

abbrev pub resource_type_replication_slot_advance_from_cts : Text
resource_type_replication_slot_advance_from_cts = bytes "spock.replication_slot_advance_from_cts"

abbrev pub resource_type_disabled_subscription : Text
resource_type_disabled_subscription = bytes "spock.disabled_subscription"

abbrev pub resource_type_replication_origin_advance : Text
resource_type_replication_origin_advance = bytes "spock.replication_origin_advance"

abbrev pub resource_type_peer_catchup : Text
resource_type_peer_catchup = bytes "spock.peer_catchup"
