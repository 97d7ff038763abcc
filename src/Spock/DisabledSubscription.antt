-- ===== src/Spock/DisabledSubscription.antt =====
-- internal/spock/disabled_subscription.go: `DisabledSubscription`. Its status is kept in the world.
use pgedge_helm.Base.{List, [], ◌∷◌}
use pgedge_helm.Base.Text.{Text}
use pgedge_helm.Config.{Node}
use pgedge_helm.Resource.{Identifier}
use pgedge_helm.Spock.Names.{spock_slot_name, spock_sub_name}
use pgedge_helm.Spock.Types.{
  Conn, ident, resource_type_disabled_subscription, resource_type_node,
  resource_type_replication_slot_create,
}

pub record DisabledSubscription : Type 0 where
  pub src : Node
  pub dst : Node
  pub db_name : Text
  pub pgedge_user : Text
  pub conn : Conn

unfoldable pub new_disabled_subscription : Node → Node → Text → Text → Conn → DisabledSubscription
new_disabled_subscription src dst db_name pgedge_user conn = record {
  src = src;
  dst = dst;
  db_name = db_name;
  pgedge_user = pgedge_user;
  conn = conn;
}

unfoldable pub sub_name : DisabledSubscription → Text
sub_name s = spock_sub_name s.src.name s.dst.name

unfoldable pub identifier : DisabledSubscription → Identifier
unfolding sub_name
identifier s = ident resource_type_disabled_subscription (sub_name s)

unfoldable pub dependencies : DisabledSubscription → List Identifier
dependencies s =
    ident resource_type_node s.src.name
    ∷ ident resource_type_node s.dst.name
    ∷ ident resource_type_replication_slot_create (spock_slot_name s.db_name s.src.name s.dst.name)
    ∷ []
