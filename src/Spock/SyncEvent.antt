-- ===== src/Spock/SyncEvent.antt =====
-- internal/spock/sync_event.go: `SyncEvent`. Its status and its LSN are kept in the world.
use pgedge_helm.Base.{List, [], ◌∷◌, ◌++◌}
use pgedge_helm.Base.Text.{Text}
use pgedge_helm.Resource.{Identifier}
use pgedge_helm.Spock.Names.{pair_id, spock_sub_name}
use pgedge_helm.Spock.Types.{
  Conn, ident, resource_type_sync_event, resource_type_node, resource_type_subscription,
}

pub record SyncEvent : Type 0 where
  pub provider_name : Text
  pub subscriber_name : Text
  pub conn : Conn
  pub extra_deps : List Identifier

unfoldable pub new_sync_event : Text → Text → Conn → List Identifier → SyncEvent
new_sync_event provider_name subscriber_name conn extra_deps = record {
  provider_name = provider_name;
  subscriber_name = subscriber_name;
  conn = conn;
  extra_deps = extra_deps;
}

unfoldable pub identifier : SyncEvent → Identifier
identifier r = ident resource_type_sync_event (pair_id r.provider_name r.subscriber_name)

unfoldable pub dependencies : SyncEvent → List Identifier
dependencies r =
    (ident resource_type_node r.provider_name
      ∷ ident resource_type_subscription (spock_sub_name r.provider_name r.subscriber_name)
      ∷ [])
    ++ r.extra_deps
