-- ===== src/Spock/Desired/Grows.antt =====
-- The map of `ComputeDesired` (internal/spock/desired.go) only grows.
use pgedge_helm.Base.{◌≡◌, true, List, [], ◌∷◌, ==_refl, All, arith, if_ind}
use pgedge_helm.Base.Text.{Text, text_key}
use pgedge_helm.Base.Maps.{Map, contains, lookup-insert}
use pgedge_helm.Config.{Node, Config}
use pgedge_helm.Resource.{Identifier, identifier_key}
use pgedge_helm.Spock.Types.{ident, resource_type_user, resource_type_node}
use pgedge_helm.Spock.User
use pgedge_helm.Spock.User.{new_pgedge_user}
use pgedge_helm.Spock.SpockNode
use pgedge_helm.Spock.SpockNode.{new_spock_node}
use pgedge_helm.Spock.Object.{Body, user, node, body_identifier}
use pgedge_helm.Spock.Desired.{
  Building, put, Conns, conn_of, add_users_and_nodes, add_peer, add_peers, is_end,
  add_populate_resources, add_new_nodes,
}

abbrev pub Has : Identifier → Building → Type 0
Has k b = contains k b.resources ≡ true

pub put-Has : (body : Body) (b : Building) → Has (body_identifier body) (put body b)
unfolding put
put-Has body b = ground (
  arith,
  lookup-insert (body_identifier body) (body_identifier body)
      (record { address = b.next; body = body }) b.resources,
  ==_refl (body_identifier body),
)

pub put_grows : (body : Body) (b : Building) (k : Identifier) → Has k b → Has k (put body b)
unfolding put
put_grows body b k h = ground (
  arith,
  lookup-insert k (body_identifier body) (record { address = b.next; body = body }) b.resources,
)

abbrev pub Grows : Building → Building → Type 0
Grows b made = (k : Identifier) → Has k b → Has k made

module _ (cfg : Config) (conns : Conns) where
  add_peer-Grows :
      (peer new_node : Node) (b : Building) → Grows b (add_peer cfg conns peer new_node b)
  unfolding add_peer
  add_peer-Grows peer new_node b k h = put_grows _ _ k (
      put_grows _ _ k (
        put_grows _ _ k (
          put_grows _ _ k
            (put_grows _ _ k (put_grows _ _ k (put_grows _ _ k (put_grows _ b k h)))))))

  add_peers-Grows :
      (peers : List Node) (new_node : Node) (b : Building)
      → Grows b (add_peers cfg conns peers new_node b)
  unfolding add_peers
  add_peers-Grows [] new_node b k h = h
  add_peers-Grows (peer ∷ peers) new_node b k h =
      add_peers-Grows peers new_node _ k
        (if_ind (Has k) (is_end cfg conns peer new_node) h (add_peer-Grows peer new_node b k h))

  add_populate_resources-Grows :
      (new_node : Node) (b : Building) → Grows b (add_populate_resources cfg conns new_node b).0
  unfolding add_populate_resources
  add_populate_resources-Grows new_node b k h =
      put_grows _ _ k (put_grows _ _ k (add_peers-Grows cfg.nodes new_node b k h))

  pub add_new_nodes-Grows :
      (fresh : Map Text Node) (b : Building) (deps : Map Text (List Identifier))
      → Grows b (add_new_nodes cfg conns fresh (b, deps)).0
  unfolding add_new_nodes
  add_new_nodes-Grows [] b deps k h = h
  add_new_nodes-Grows ((name, n) ∷ rest) b deps k h =
      add_new_nodes-Grows rest (add_populate_resources cfg conns n b).0 _ k
        (add_populate_resources-Grows n b k h)

  add_users_and_nodes-Grows :
      (ns : List Node) (b : Building) → Grows b (add_users_and_nodes cfg conns ns b)
  unfolding add_users_and_nodes
  add_users_and_nodes-Grows [] b k h = h
  add_users_and_nodes-Grows (n ∷ ns) b k h =
      add_users_and_nodes-Grows ns _ k (put_grows _ _ k (put_grows _ b k h))

  -- A role and a Spock node.
  abbrev pub HasNode : Node → Building → Type 0
  HasNode n b = Has (ident resource_type_user n.name) b × Has (ident resource_type_node n.name) b

  pub users-HasNode :
      (ns : List Node) (b : Building) → All (λ n. HasNode n (add_users_and_nodes cfg conns ns b)) ns
  unfolding add_users_and_nodes body_identifier User.identifier SpockNode.identifier new_pgedge_user
      new_spock_node
  users-HasNode [] b = tt
  users-HasNode (n ∷ ns) b =
      let c = conn_of conns n.name in
      let role = user (new_pgedge_user n cfg.db_name cfg.pgedge_user c) in
      let member = node (new_spock_node n cfg.db_name cfg.pgedge_user c) in
      let b1 = put role b in
      let b2 = put member b1 in
      let role_there : Has (ident resource_type_user n.name) b2 =
        put_grows member b1 (ident resource_type_user n.name) (put-Has role b) in
      let member_there : Has (ident resource_type_node n.name) b2 = put-Has member b1 in
      (
        (
          add_users_and_nodes-Grows ns b2 _ role_there,
          add_users_and_nodes-Grows ns b2 _ member_there,
        ),
        users-HasNode ns b2,
      )
