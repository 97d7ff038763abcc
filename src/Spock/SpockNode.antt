-- ===== src/Spock/SpockNode.antt =====
-- internal/spock/node.go: `SpockNode`. Its status is kept in the world.
use pgedge_helm.Base.{List, [], ◌∷◌}
use pgedge_helm.Base.Text.{Text}
use pgedge_helm.Config.{Node}
use pgedge_helm.Resource.{Identifier}
use pgedge_helm.Spock.Types.{Conn, ident, resource_type_user, resource_type_node}

pub record SpockNode : Type 0 where
  pub node : Node
  pub db_name : Text
  pub pgedge_user : Text
  pub conn : Conn

unfoldable pub new_spock_node : Node → Text → Text → Conn → SpockNode
new_spock_node node db_name pgedge_user conn = record {
  node = node;
  db_name = db_name;
  pgedge_user = pgedge_user;
  conn = conn;
}

unfoldable pub identifier : SpockNode → Identifier
identifier n = ident resource_type_node n.node.name

unfoldable pub dependencies : SpockNode → List Identifier
dependencies n = ident resource_type_user n.node.name ∷ []
