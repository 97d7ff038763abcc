-- ===== src/Spock/WaitForSyncEvent.antt =====
-- internal/spock/wait_for_sync_event.go: `WaitForSyncEvent`. Its status is kept in the world.
use pgedge_helm.Base.{List, [], ◌∷◌}
use pgedge_helm.Base.Text.{Text}
use pgedge_helm.Resource.{Identifier}
use pgedge_helm.Spock.Names.{pair_id}
use pgedge_helm.Spock.Types.{
  Conn, Address, ident, resource_type_sync_event, resource_type_wait_for_sync_event,
}

pub record WaitForSyncEvent : Type 0 where
  pub provider_name : Text
  pub subscriber_name : Text
  pub sync_event : Address
  pub conn : Conn

unfoldable pub new_wait_for_sync_event : Text → Text → Address → Conn → WaitForSyncEvent
new_wait_for_sync_event provider_name subscriber_name sync_event conn = record {
  provider_name = provider_name;
  subscriber_name = subscriber_name;
  sync_event = sync_event;
  conn = conn;
}

unfoldable pub identifier : WaitForSyncEvent → Identifier
identifier r = ident resource_type_wait_for_sync_event (pair_id r.provider_name r.subscriber_name)

unfoldable pub dependencies : WaitForSyncEvent → List Identifier
dependencies r = ident resource_type_sync_event (pair_id r.provider_name r.subscriber_name) ∷ []
