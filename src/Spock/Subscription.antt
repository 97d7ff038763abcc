-- ===== src/Spock/Subscription.antt =====
-- internal/spock/subscription.go: `Subscription`. Its status is kept in the world.
use pgedge_helm.Base.{List, [], ◌∷◌, ◌++◌, Bool}
use pgedge_helm.Base.Text.{Text}
use pgedge_helm.Config.{Node}
use pgedge_helm.Resource.{Identifier}
use pgedge_helm.Spock.Names.{spock_slot_name, spock_sub_name}
use pgedge_helm.Spock.Types.{
  Conn, ident, resource_type_subscription, resource_type_node, resource_type_replication_slot,
}

pub record Subscription : Type 0 where
  pub src : Node
  pub dst : Node
  pub db_name : Text
  pub pgedge_user : Text
  pub sync : Bool
  pub conn : Conn
  pub extra_deps : List Identifier

unfoldable pub new_subscription :
    Node → Node → Text → Text → Bool → Conn → List Identifier → Subscription
new_subscription src dst db_name pgedge_user sync conn extra_deps = record {
  src = src;
  dst = dst;
  db_name = db_name;
  pgedge_user = pgedge_user;
  sync = sync;
  conn = conn;
  extra_deps = extra_deps;
}

unfoldable pub sub_name : Subscription → Text
sub_name s = spock_sub_name s.src.name s.dst.name

unfoldable pub replication_slot_name : Subscription → Text
replication_slot_name s = spock_slot_name s.db_name s.src.name s.dst.name

unfoldable pub identifier : Subscription → Identifier
unfolding sub_name
identifier s = ident resource_type_subscription (sub_name s)

unfoldable pub dependencies : Subscription → List Identifier
unfolding replication_slot_name
dependencies s =
    (ident resource_type_node s.src.name
      ∷ ident resource_type_node s.dst.name
      ∷ ident resource_type_replication_slot (replication_slot_name s)
      ∷ [])
    ++ s.extra_deps
