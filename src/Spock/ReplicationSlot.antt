-- ===== src/Spock/ReplicationSlot.antt =====
-- internal/spock/replication_slot.go: `ReplicationSlot`. Its status is kept in the world.
use pgedge_helm.Base.{List, [], ◌∷◌}
use pgedge_helm.Base.Text.{Text}
use pgedge_helm.Resource.{Identifier}
use pgedge_helm.Spock.Names.{spock_slot_name}
use pgedge_helm.Spock.Types.{Conn, ident, resource_type_replication_slot, resource_type_node}

pub record ReplicationSlot : Type 0 where
  pub provider_name : Text
  pub subscriber_name : Text
  pub db_name : Text
  pub name_override : Text
  pub conn : Conn

unfoldable pub new_replication_slot : Text → Text → Text → Conn → ReplicationSlot
new_replication_slot provider_name subscriber_name db_name conn = record {
  provider_name = provider_name;
  subscriber_name = subscriber_name;
  db_name = db_name;
  name_override = [];
  conn = conn;
}

abbrev override_or : Text → Text → Text
override_or [] name = name
override_or (c ∷ cs) name = c ∷ cs

unfoldable pub slot_name : ReplicationSlot → Text
slot_name r =
    override_or r.name_override (spock_slot_name r.db_name r.provider_name r.subscriber_name)

unfoldable pub identifier : ReplicationSlot → Identifier
identifier r = ident resource_type_replication_slot (slot_name r)

unfoldable pub dependencies : ReplicationSlot → List Identifier
dependencies r = ident resource_type_node r.provider_name ∷ []
