-- ===== src/Spock/ReplicationSlotCreate.antt =====
-- internal/spock/replication_slot_create.go: `ReplicationSlotCreate`. Its status is kept in the world.
use pgedge_helm.Base.{List, [], ◌∷◌}
use pgedge_helm.Base.Text.{Text}
use pgedge_helm.Resource.{Identifier}
use pgedge_helm.Spock.Names.{spock_slot_name}
use pgedge_helm.Spock.Types.{Conn, ident, resource_type_replication_slot_create, resource_type_node}

pub record ReplicationSlotCreate : Type 0 where
  pub provider_name : Text
  pub subscriber_name : Text
  pub db_name : Text
  pub conn : Conn

unfoldable pub new_replication_slot_create : Text → Text → Text → Conn → ReplicationSlotCreate
new_replication_slot_create provider_name subscriber_name db_name conn = record {
  provider_name = provider_name;
  subscriber_name = subscriber_name;
  db_name = db_name;
  conn = conn;
}

unfoldable pub slot_name : ReplicationSlotCreate → Text
slot_name r = spock_slot_name r.db_name r.provider_name r.subscriber_name

unfoldable pub identifier : ReplicationSlotCreate → Identifier
unfolding slot_name
identifier r = ident resource_type_replication_slot_create (slot_name r)

unfoldable pub dependencies : ReplicationSlotCreate → List Identifier
dependencies r = ident resource_type_node r.provider_name ∷ []
