-- ===== src/Spock/Desired/Mesh.antt =====
-- The pairs of `ComputeDesired` (internal/spock/desired.go): each has its entries.
use mathlib.Core.List.{Memᴰ}
use pgedge_helm.Base.{
  ◌≡◌, refl, sym, subst, false, List, [], ◌∷◌, ◌==◌, All, All-map, arith, if_ind,
}
use pgedge_helm.Base.Text.{Text, text_key}
use pgedge_helm.Base.Maps.{Map}
use pgedge_helm.Config.{Node, Config}
use pgedge_helm.Resource.{Identifier, identifier_key}
use pgedge_helm.Spock.Names.{spock_slot_name, spock_sub_name}
use pgedge_helm.Spock.Types.{
  Address, ident, resource_type_replication_slot, resource_type_subscription,
}
use pgedge_helm.Spock.ReplicationSlot
use pgedge_helm.Spock.ReplicationSlot.{new_replication_slot}
use pgedge_helm.Spock.Subscription
use pgedge_helm.Spock.Subscription.{new_subscription}
use pgedge_helm.Spock.Object.{Body, slot, body_identifier}
use pgedge_helm.Spock.Desired.Grows.{
  Has, Grows, put-Has, put_grows, add_new_nodes-Grows, HasNode, users-HasNode,
}
use pgedge_helm.Spock.Desired.{
  Building, put, Conns, conn_of, is_filling, end_state_subscription, add_pair, add_pairs_from,
  add_pairs, compute_desired, new_nodes, add_users_and_nodes, add_new_nodes,
}

module _ (cfg : Config) (conns : Conns) (fresh : Map Text Node)
    (peer_deps : Map Text (List Identifier)) where
  abbrev slot_of : (src dst : Node) → Body
  slot_of src dst =
      slot (new_replication_slot src.name dst.name cfg.db_name (conn_of conns src.name))

  abbrev sub_of : (src dst : Node) → Body
  sub_of = end_state_subscription cfg conns fresh peer_deps

  add_pair_grows :
      (src dst : Node) (b : Building) (k : Identifier)
      → Has k b
      → Has k (add_pair cfg conns fresh peer_deps src dst b)
  unfolding add_pair
  add_pair_grows src dst b k h =
      if_ind (Has k) (src.name == dst.name) h
        (put_grows (sub_of src dst) (put (slot_of src dst) b) k (put_grows (slot_of src dst) b k h))

  abbrev slot_key : (src dst : Node) → Identifier
  slot_key src dst =
      ident resource_type_replication_slot (spock_slot_name cfg.db_name src.name dst.name)

  abbrev sub_key : (src dst : Node) → Identifier
  sub_key src dst = ident resource_type_subscription (spock_sub_name src.name dst.name)

  slot_of-key : (src dst : Node) → body_identifier (slot_of src dst) ≡ slot_key src dst
  unfolding body_identifier ReplicationSlot.identifier ReplicationSlot.slot_name
      new_replication_slot
  slot_of-key src dst = refl

  sub_of-key : (src dst : Node) → body_identifier (sub_of src dst) ≡ sub_key src dst
  unfolding body_identifier Subscription.identifier Subscription.sub_name new_subscription
  sub_of-key src dst =
      if_ind (λ b. body_identifier b ≡ sub_key src dst)
        (is_filling cfg conns fresh peer_deps src dst) refl refl

  -- A slot at the source and a subscription at the destination.
  abbrev pub HasPair : (src dst : Node) → Building → Type 0
  HasPair src dst b = Has (slot_key src dst) b × Has (sub_key src dst) b

  -- Where the two are not the same.
  abbrev pub Joined : (src dst : Node) → Building → Type 0
  Joined src dst b = (src.name == dst.name) ≡ false → HasPair src dst b

  abbrev pub Joins : Node → List Node → Building → Type 0
  Joins src dsts b = All (λ dst. Joined src dst b) dsts

  Joined-Grows :
      (src dst : Node) (b made : Building) → Grows b made → Joined src dst b → Joined src dst made
  Joined-Grows src dst b made g h other =
      (g (slot_key src dst) (h other).0, g (sub_key src dst) (h other).1)

  add_pair-Joined :
      (src dst : Node) (b : Building)
      → Joined src dst (add_pair cfg conns fresh peer_deps src dst b)
  unfolding add_pair
  add_pair-Joined src dst b other =
      let b1 = put (slot_of src dst) b in
      let b2 = put (sub_of src dst) b1 in
      let made : add_pair cfg conns fresh peer_deps src dst b ≡ b2 = ground arith in
      let slot_made : Has (slot_key src dst) b2 =
        put_grows (sub_of src dst) b1 (slot_key src dst)
          (subst (λ k. Has k b1) (slot_of-key src dst) (put-Has (slot_of src dst) b)) in
      let sub_made : Has (sub_key src dst) b2 =
        subst (λ k. Has k b2) (sub_of-key src dst) (put-Has (sub_of src dst) b1) in
      subst (HasPair src dst) (sym made) (slot_made, sub_made)

  add_pairs_from-Grows :
      (src : Node) (dsts : List Node) (b : Building)
      → Grows b (add_pairs_from cfg conns fresh peer_deps src dsts b)
  unfolding add_pairs_from
  add_pairs_from-Grows src [] b k h = h
  add_pairs_from-Grows src (dst ∷ dsts) b k h =
      add_pairs_from-Grows src dsts (add_pair cfg conns fresh peer_deps src dst b) k
        (add_pair_grows src dst b k h)

  add_pairs_from-Joins :
      (src : Node) (dsts : List Node) (b : Building)
      → Joins src dsts (add_pairs_from cfg conns fresh peer_deps src dsts b)
  unfolding add_pairs_from
  add_pairs_from-Joins src [] b = tt
  add_pairs_from-Joins src (dst ∷ dsts) b =
      let b1 = add_pair cfg conns fresh peer_deps src dst b in
      (
        Joined-Grows src dst b1 (add_pairs_from cfg conns fresh peer_deps src dsts b1)
            (add_pairs_from-Grows src dsts b1) (add_pair-Joined src dst b),
        add_pairs_from-Joins src dsts b1,
      )

  add_pairs-Grows :
      (srcs : List Node) (b : Building) → Grows b (add_pairs cfg conns fresh peer_deps srcs b)
  unfolding add_pairs
  add_pairs-Grows [] b k h = h
  add_pairs-Grows (src ∷ srcs) b k h =
      add_pairs-Grows srcs (add_pairs_from cfg conns fresh peer_deps src cfg.nodes b) k
        (add_pairs_from-Grows src cfg.nodes b k h)

  pub add_pairs-Joins :
      (srcs : List Node) (b : Building)
      → All (λ src. Joins src cfg.nodes (add_pairs cfg conns fresh peer_deps srcs b)) srcs
  unfolding add_pairs
  add_pairs-Joins [] b = tt
  add_pairs-Joins (src ∷ srcs) b =
      let b1 = add_pairs_from cfg conns fresh peer_deps src cfg.nodes b in
      (
        All-map
            (λ dst.
              Joined-Grows src dst b1 (add_pairs cfg conns fresh peer_deps srcs b1)
                (add_pairs-Grows srcs b1))
            cfg.nodes (add_pairs_from-Joins src cfg.nodes b),
        add_pairs-Joins srcs b1,
      )

All-member : {A : Type 0} (P : A → Type 0) (a : A) (xs : List A) → Memᴰ a xs → All P xs → P a
All-member P a [] m h = elim m [ ]
All-member P a (x ∷ xs) (Memᴰ.head e) (h, k) = subst P (sym e) h
All-member P a (x ∷ xs) (Memᴰ.tail m) (h, k) = All-member P a xs m k

-- For two nodes of the configuration with different names, there are entries at the identifiers of a
-- role and a Spock node of both, and of the slot and the subscription of the pair.
pub compute_desired-HasPair :
    (cfg : Config) (conns : Conns) (next : Address) (src dst : Node)
    → Memᴰ src cfg.nodes
    → Memᴰ dst cfg.nodes
    → (src.name == dst.name) ≡ false
    → HasNode cfg conns src (compute_desired cfg conns next)
      × HasNode cfg conns dst (compute_desired cfg conns next)
      × Has
          (ident resource_type_replication_slot (spock_slot_name cfg.db_name src.name dst.name))
          (compute_desired cfg conns next)
      × Has
          (ident resource_type_subscription (spock_sub_name src.name dst.name))
          (compute_desired cfg conns next)
unfolding compute_desired
compute_desired-HasPair cfg conns next src dst src_in dst_in other =
    let empty : Building = record { resources = []; next = next } in
    let b1 = add_users_and_nodes cfg conns cfg.nodes empty in
    let fresh = new_nodes cfg.nodes [] in
    let filled = add_new_nodes cfg conns fresh (b1, []) in
    let b2 = add_pairs cfg conns fresh filled.1 cfg.nodes filled.0 in
    let grown : Grows b1 b2 = λ k h.
      add_pairs-Grows cfg conns fresh filled.1 cfg.nodes filled.0 k
        (add_new_nodes-Grows cfg conns fresh b1 [] k h) in
    let members = users-HasNode cfg conns cfg.nodes empty in
    let at_src = All-member (λ n. HasNode cfg conns n b1) src cfg.nodes src_in members in
    let at_dst = All-member (λ n. HasNode cfg conns n b1) dst cfg.nodes dst_in members in
    let joins =
      All-member (λ n. Joins cfg conns fresh filled.1 n cfg.nodes b2) src cfg.nodes src_in
        (add_pairs-Joins cfg conns fresh filled.1 cfg.nodes filled.0) in
    let (slot_there, sub_there) =
      All-member (λ n. Joined cfg conns fresh filled.1 src n b2) dst cfg.nodes dst_in joins other in
    (
      (grown _ at_src.0, grown _ at_src.1),
      (grown _ at_dst.0, grown _ at_dst.1),
      slot_there,
      sub_there,
    )
