-- ===== src/Spock/User.antt =====
-- internal/spock/user.go: `PgEdgeUser`. Its status is kept in the world.
use pgedge_helm.Base.{List, []}
use pgedge_helm.Base.Text.{Text}
use pgedge_helm.Config.{Node}
use pgedge_helm.Resource.{Identifier}
use pgedge_helm.Spock.Types.{Conn, ident, resource_type_user}

pub record PgEdgeUser : Type 0 where
  pub node : Node
  pub db_name : Text
  pub pgedge_user : Text
  pub conn : Conn

unfoldable pub new_pgedge_user : Node → Text → Text → Conn → PgEdgeUser
new_pgedge_user node db_name pgedge_user conn = record {
  node = node;
  db_name = db_name;
  pgedge_user = pgedge_user;
  conn = conn;
}

unfoldable pub identifier : PgEdgeUser → Identifier
identifier u = ident resource_type_user u.node.name

unfoldable pub dependencies : PgEdgeUser → List Identifier
dependencies u = []
