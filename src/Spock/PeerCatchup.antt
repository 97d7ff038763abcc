-- ===== src/Spock/PeerCatchup.antt =====
-- internal/spock/peer_catchup.go: `PeerCatchup`. Its status is kept in the world.
use pgedge_helm.Base.{List, [], ◌∷◌}
use pgedge_helm.Base.Text.{Text}
use pgedge_helm.Resource.{Identifier}
use pgedge_helm.Spock.Names.{pair_id}
use pgedge_helm.Spock.Types.{
  Conn, Address, ident, resource_type_sync_event, resource_type_peer_catchup,
}

pub record PeerCatchup : Type 0 where
  pub peer_name : Text
  pub source_name : Text
  pub sync_event : Address
  pub conn : Conn

unfoldable pub new_peer_catchup : Text → Text → Address → Conn → PeerCatchup
new_peer_catchup peer_name source_name sync_event conn = record {
  peer_name = peer_name;
  source_name = source_name;
  sync_event = sync_event;
  conn = conn;
}

unfoldable pub identifier : PeerCatchup → Identifier
identifier r = ident resource_type_peer_catchup (pair_id r.peer_name r.source_name)

unfoldable pub dependencies : PeerCatchup → List Identifier
dependencies r = ident resource_type_sync_event (pair_id r.peer_name r.source_name) ∷ []
