-- ===== src/Spock/Desired/Wanted.antt =====
-- The objects of `ComputeDesired` (internal/spock/desired.go): which node each belongs to.
use mathlib.Core.List.{Memᴰ}
use pgedge_helm.Base.{◌≡◌, refl, Bool, List, [], ◌∷◌, ◌==◌, All, if_ind}
use pgedge_helm.Base.Text.{Text, text_key}
use pgedge_helm.Base.Maps.{Map, insert}
use pgedge_helm.Config.{Node, Config}
use pgedge_helm.Resource.{Identifier, identifier_key}
use pgedge_helm.Spock.Types.{Address}
use pgedge_helm.Spock.User.{PgEdgeUser, new_pgedge_user}
use pgedge_helm.Spock.SpockNode.{SpockNode, new_spock_node}
use pgedge_helm.Spock.ReplicationSlot.{ReplicationSlot, new_replication_slot}
use pgedge_helm.Spock.Subscription.{Subscription, new_subscription}
use pgedge_helm.Spock.Object.{Body, user, node, slot, subscription, Object, body_identifier}
use pgedge_helm.Spock.Desired.{
  Building, put, Conns, conn_of, add_users_and_nodes, add_peer, add_peers, is_end,
  add_populate_resources, add_new_nodes, is_filling, add_pair, add_pairs_from, add_pairs, new_nodes,
  compute_desired,
}

module _ (cfg : Config) (conns : Conns) where
  abbrev pub user_of : Node → PgEdgeUser
  user_of n = record {
    node = n;
    db_name = cfg.db_name;
    pgedge_user = cfg.pgedge_user;
    conn = conn_of conns n.name;
  }

  abbrev pub node_of : Node → SpockNode
  node_of n = record {
    node = n;
    db_name = cfg.db_name;
    pgedge_user = cfg.pgedge_user;
    conn = conn_of conns n.name;
  }

  -- The slot is at the source.
  abbrev pub slot_of : (src dst : Node) → ReplicationSlot
  slot_of src dst = record {
    provider_name = src.name;
    subscriber_name = dst.name;
    db_name = cfg.db_name;
    name_override = [];
    conn = conn_of conns src.name;
  }

  -- The subscription is at the destination.
  abbrev pub sub_of : (src dst : Node) (sync : Bool) (extra_deps : List Identifier) → Subscription
  sub_of src dst sync extra_deps = record {
    src = src;
    dst = dst;
    db_name = cfg.db_name;
    pgedge_user = cfg.pgedge_user;
    sync = sync;
    conn = conn_of conns dst.name;
    extra_deps = extra_deps;
  }

  -- Roles, nodes, slots and subscriptions are those of nodes of the configuration.
  abbrev pub IsWanted : Body → Type 0
  IsWanted (user u) = (n : Node) × Memᴰ n cfg.nodes × (u ≡ user_of n)
  IsWanted (node r) = (n : Node) × Memᴰ n cfg.nodes × (r ≡ node_of n)
  IsWanted (slot r) =
      (src dst : Node) × Memᴰ src cfg.nodes × Memᴰ dst cfg.nodes × (r ≡ slot_of src dst)
  IsWanted (subscription s) =
      (src dst : Node) × (sync : Bool) × (extra : List Identifier) × Memᴰ src cfg.nodes
      × Memᴰ dst cfg.nodes
      × (s ≡ sub_of src dst sync extra)
  IsWanted _ = Unit

  -- All entries are, and stand under the identifiers of their objects.
  abbrev pub AllWanted : Map Identifier Object → Type 0
  AllWanted = All (λ e. (e.0 ≡ body_identifier e.1.body) × IsWanted e.1.body)

  put-AllWanted :
      (body : Body) (b : Building)
      → IsWanted body
      → AllWanted b.resources
      → AllWanted (put body b).resources
  unfolding put
  put-AllWanted body b w h = insert_entry b.resources h
    where
      insert_entry :
          (m : Map Identifier Object)
          → AllWanted m
          → AllWanted (insert (body_identifier body) (record { address = b.next; body = body }) m)
      insert_entry [] k = ((refl, w), tt)
      insert_entry ((j, o) ∷ m) k =
          if_ind AllWanted (body_identifier body == j) ((refl, w), k.1) (k.0, insert_entry m k.1)

  users-AllWanted :
      (ns : List Node) (b : Building)
      → All (λ n. Memᴰ n cfg.nodes) ns
      → AllWanted b.resources
      → AllWanted (add_users_and_nodes cfg conns ns b).resources
  unfolding add_users_and_nodes new_pgedge_user new_spock_node
  users-AllWanted [] b k h = h
  users-AllWanted (n ∷ ns) b (n_in, k) h =
      users-AllWanted ns _ k
        (put-AllWanted _ _ (n, n_in, refl) (put-AllWanted _ b (n, n_in, refl) h))

  add_peer-AllWanted :
      (peer new_node : Node) (b : Building)
      → AllWanted b.resources
      → AllWanted (add_peer cfg conns peer new_node b).resources
  unfolding add_peer
  add_peer-AllWanted peer new_node b h = put-AllWanted _ _ tt (
      put-AllWanted _ _ tt (
        put-AllWanted _ _ tt (
          put-AllWanted _ _ tt (
            put-AllWanted _ _ tt
              (put-AllWanted _ _ tt (put-AllWanted _ _ tt (put-AllWanted _ b tt h)))))))

  add_peers-AllWanted :
      (peers : List Node) (new_node : Node) (b : Building)
      → AllWanted b.resources
      → AllWanted (add_peers cfg conns peers new_node b).resources
  unfolding add_peers
  add_peers-AllWanted [] new_node b h = h
  add_peers-AllWanted (peer ∷ peers) new_node b h = add_peers-AllWanted peers new_node _ (
      if_ind (λ (c : Building). AllWanted c.resources) (is_end cfg conns peer new_node) h
        (add_peer-AllWanted peer new_node b h))

  pub add_new_nodes-AllWanted :
      (fresh : Map Text Node) (b : Building) (deps : Map Text (List Identifier))
      → AllWanted b.resources
      → AllWanted (add_new_nodes cfg conns fresh (b, deps)).0.resources
  unfolding add_new_nodes add_populate_resources
  add_new_nodes-AllWanted [] b deps h = h
  add_new_nodes-AllWanted ((name, n) ∷ rest) b deps h =
      add_new_nodes-AllWanted rest (add_populate_resources cfg conns n b).0 _
        (put-AllWanted _ _ tt (put-AllWanted _ _ tt (add_peers-AllWanted cfg.nodes n b h)))

  module _ (fresh : Map Text Node) (peer_deps : Map Text (List Identifier)) where
    add_pair-AllWanted :
        (src dst : Node) (b : Building)
        → Memᴰ src cfg.nodes
        → Memᴰ dst cfg.nodes
        → AllWanted b.resources
        → AllWanted (add_pair cfg conns fresh peer_deps src dst b).resources
    unfolding add_pair new_replication_slot new_subscription
    add_pair-AllWanted src dst b src_in dst_in h =
        if_ind (λ (c : Building). AllWanted c.resources) (src.name == dst.name) h
          (put-AllWanted _ _
            (if_ind IsWanted (is_filling cfg conns fresh peer_deps src dst)
              (src, dst, _, _, src_in, dst_in, refl) (src, dst, _, _, src_in, dst_in, refl))
            (put-AllWanted _ b (src, dst, src_in, dst_in, refl) h))

    add_pairs_from-AllWanted :
        (src : Node) (dsts : List Node) (b : Building)
        → Memᴰ src cfg.nodes
        → All (λ n. Memᴰ n cfg.nodes) dsts
        → AllWanted b.resources
        → AllWanted (add_pairs_from cfg conns fresh peer_deps src dsts b).resources
    unfolding add_pairs_from
    add_pairs_from-AllWanted src [] b src_in k h = h
    add_pairs_from-AllWanted src (dst ∷ dsts) b src_in (dst_in, k) h =
        add_pairs_from-AllWanted src dsts (add_pair cfg conns fresh peer_deps src dst b) src_in k
          (add_pair-AllWanted src dst b src_in dst_in h)

    add_pairs-AllWanted :
        (srcs : List Node) (b : Building)
        → All (λ n. Memᴰ n cfg.nodes) cfg.nodes
        → All (λ n. Memᴰ n cfg.nodes) srcs
        → AllWanted b.resources
        → AllWanted (add_pairs cfg conns fresh peer_deps srcs b).resources
    unfolding add_pairs
    add_pairs-AllWanted [] b all k h = h
    add_pairs-AllWanted (src ∷ srcs) b all (src_in, k) h =
        add_pairs-AllWanted srcs (add_pairs_from cfg conns fresh peer_deps src cfg.nodes b) all k
          (add_pairs_from-AllWanted src cfg.nodes b src_in all h)

  all_members :
      (ns : List Node)
      → ((n : Node) → Memᴰ n ns → Memᴰ n cfg.nodes)
      → All (λ n. Memᴰ n cfg.nodes) ns
  all_members [] h = tt
  all_members (n ∷ ns) h = (h n (Memᴰ.head refl), all_members ns (λ m k. h m (Memᴰ.tail k)))

  pub compute_desired-AllWanted :
      (next : Address) → AllWanted (compute_desired cfg conns next).resources
  unfolding compute_desired
  compute_desired-AllWanted next =
      let members = all_members cfg.nodes (λ n m. m) in
      let b1 = add_users_and_nodes cfg conns cfg.nodes (record { resources = []; next = next }) in
      let fresh = new_nodes cfg.nodes [] in
      let filled = add_new_nodes cfg conns fresh (b1, []) in
      add_pairs-AllWanted fresh filled.1 cfg.nodes filled.0 members members (
        add_new_nodes-AllWanted fresh b1 []
          (users-AllWanted cfg.nodes (record { resources = []; next = next }) members tt))
