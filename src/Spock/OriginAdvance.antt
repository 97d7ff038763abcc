-- ===== src/Spock/OriginAdvance.antt =====
-- internal/spock/replication_origin_advance.go: `ReplicationOriginAdvance`. Its status is kept in the world.
use pgedge_helm.Base.{List, [], ◌∷◌}
use pgedge_helm.Base.Text.{Text}
use pgedge_helm.Resource.{Identifier}
use pgedge_helm.Spock.Names.{pair_id, spock_slot_name}
use pgedge_helm.Spock.Types.{
  Conn, Address, ident, resource_type_replication_origin_advance,
  resource_type_replication_slot_advance_from_cts,
}

pub record ReplicationOriginAdvance : Type 0 where
  pub provider_name : Text
  pub subscriber_name : Text
  pub db_name : Text
  pub slot_advance : Address
  pub conn : Conn

unfoldable pub new_replication_origin_advance :
    Text → Text → Text → Address → Conn → ReplicationOriginAdvance
new_replication_origin_advance provider_name subscriber_name db_name slot_advance conn = record {
  provider_name = provider_name;
  subscriber_name = subscriber_name;
  db_name = db_name;
  slot_advance = slot_advance;
  conn = conn;
}

unfoldable pub origin_name : ReplicationOriginAdvance → Text
origin_name r = spock_slot_name r.db_name r.provider_name r.subscriber_name

unfoldable pub identifier : ReplicationOriginAdvance → Identifier
identifier r =
    ident resource_type_replication_origin_advance (pair_id r.provider_name r.subscriber_name)

unfoldable pub dependencies : ReplicationOriginAdvance → List Identifier
dependencies r =
    ident resource_type_replication_slot_advance_from_cts
      (pair_id r.provider_name r.subscriber_name)
    ∷ []
