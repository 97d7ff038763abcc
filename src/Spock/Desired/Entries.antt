-- ===== src/Spock/Desired/Entries.antt =====
-- `ComputeDesired` (internal/spock/desired.go): which object stands at an identifier.
use mathlib.Core.List.{Memᴰ}
use pgedge_helm.Base.{
  ◌≡◌, sym, ap, subst, ◌∙◌, arith, Bool, true, List, [], ◌∷◌, some, map, elem, ◌==◌, ==_iff, Nodup,
  Bool-cases, inl, inr,
}
use pgedge_helm.Base.Text.{Text, text_key}
use pgedge_helm.Base.Maps.{Map, lookup}
use pgedge_helm.Config.{Node, Config}
use pgedge_helm.Resource.{Identifier, identifier_key}
use pgedge_helm.Spock.Names.{spock_slot_name, spock_sub_name}
use pgedge_helm.Spock.Types.{
  ident, resource_type_user, resource_type_node, resource_type_replication_slot,
  resource_type_subscription,
}
use pgedge_helm.Spock.User
use pgedge_helm.Spock.SpockNode
use pgedge_helm.Spock.ReplicationSlot
use pgedge_helm.Spock.Subscription
use pgedge_helm.Spock.Object.{Body, user, node, slot, subscription, Object, body_identifier}
use pgedge_helm.Spock.Desired.{Conns}
use pgedge_helm.Spock.Desired.Filling.{node_names}
use pgedge_helm.Spock.Desired.Wanted.{user_of, node_of, slot_of, sub_of, IsWanted, AllWanted}

-- No two nodes have one name, and no two pairs of them one name of a slot or a subscription.
pub record NamesApart (cfg : Config) : Type 0 where
  pub nodup : Nodup (node_names cfg)
  pub slot_name_inj :
      (a b c d : Text)
      → elem a (node_names cfg) ≡ true
      → elem b (node_names cfg) ≡ true
      → elem c (node_names cfg) ≡ true
      → elem d (node_names cfg) ≡ true
      → spock_slot_name cfg.db_name a b ≡ spock_slot_name cfg.db_name c d
      → (a ≡ c) × (b ≡ d)
  pub sub_name_inj :
      (a b c d : Text)
      → elem a (node_names cfg) ≡ true
      → elem b (node_names cfg) ≡ true
      → elem c (node_names cfg) ≡ true
      → elem d (node_names cfg) ≡ true
      → spock_sub_name a b ≡ spock_sub_name c d
      → (a ≡ c) × (b ≡ d)

pub name_in : (x : Node) (ns : List Node) → Memᴰ x ns → elem x.name (map (λ n. n.name) ns) ≡ true
name_in x [] m = elim m [ ]
name_in x (n ∷ ns) (Memᴰ.head e) = ground (arith, ==_iff x.name n.name, ap (λ n. n.name) e)
name_in x (n ∷ ns) (Memᴰ.tail m) = ground (arith, name_in x ns m)

pub one_node :
    (x y : Node) (ns : List Node)
    → Nodup (map (λ n. n.name) ns)
    → Memᴰ x ns
    → Memᴰ y ns
    → x.name ≡ y.name
    → x ≡ y
one_node x y [] h m k e = elim m [ ]
one_node x y (n ∷ ns) h (Memᴰ.head p) (Memᴰ.head q) e = p ∙ sym q
one_node x y (n ∷ ns) h (Memᴰ.head p) (Memᴰ.tail k) e =
    let there : elem x.name (map (λ n. n.name) ns) ≡ true =
      subst (λ t. elem t (map (λ n. n.name) ns) ≡ true) (sym e) (name_in y ns k) in
    let here = ap (λ n. n.name) p in absurd (cc)
one_node x y (n ∷ ns) h (Memᴰ.tail m) (Memᴰ.head q) e =
    let there : elem y.name (map (λ n. n.name) ns) ≡ true =
      subst (λ t. elem t (map (λ n. n.name) ns) ≡ true) e (name_in x ns m) in
    let here = ap (λ n. n.name) q in absurd (cc)
one_node x y (n ∷ ns) h (Memᴰ.tail m) (Memᴰ.tail k) e = one_node x y ns h.1 m k e

module _ (cfg : Config) (conns : Conns) where
  pub user_at :
      (b : Body) (name : Text)
      → ident resource_type_user name ≡ body_identifier b
      → IsWanted cfg conns b
      → (n : Node) × Memᴰ n cfg.nodes × (b ≡ user (user_of cfg conns n)) × (name ≡ n.name)
  unfolding body_identifier User.identifier
  user_at (user r) name e (n, n_in, made) =
      (n, n_in, ap user made, ap (λ k. k.id) e ∙ ap (λ x. x.node.name) made)
  user_at _ name e w = absurd (ground arith)

  pub node_at :
      (b : Body) (name : Text)
      → ident resource_type_node name ≡ body_identifier b
      → IsWanted cfg conns b
      → (n : Node) × Memᴰ n cfg.nodes × (b ≡ node (node_of cfg conns n)) × (name ≡ n.name)
  unfolding body_identifier SpockNode.identifier
  node_at (node r) name e (n, n_in, made) =
      (n, n_in, ap node made, ap (λ k. k.id) e ∙ ap (λ x. x.node.name) made)
  node_at _ name e w = absurd (ground arith)

  pub slot_at :
      (b : Body) (name : Text)
      → ident resource_type_replication_slot name ≡ body_identifier b
      → IsWanted cfg conns b
      → (src dst : Node) × Memᴰ src cfg.nodes
        × Memᴰ dst cfg.nodes
        × (b ≡ slot (slot_of cfg conns src dst))
        × (name ≡ spock_slot_name cfg.db_name src.name dst.name)
  unfolding body_identifier ReplicationSlot.identifier ReplicationSlot.slot_name
  slot_at (slot r) name e (src, dst, src_in, dst_in, made) = (
    src,
    dst,
    src_in,
    dst_in,
    ap slot made,
    ap (λ k. k.id) e ∙ ap (λ r. ReplicationSlot.slot_name r) made,
  )
  slot_at _ name e w = absurd (ground arith)

  pub sub_at :
      (b : Body) (name : Text)
      → ident resource_type_subscription name ≡ body_identifier b
      → IsWanted cfg conns b
      → (src dst : Node) × (sync : Bool) × (extra : List Identifier) × Memᴰ src cfg.nodes
        × Memᴰ dst cfg.nodes
        × (b ≡ subscription (sub_of cfg conns src dst sync extra))
        × (name ≡ spock_sub_name src.name dst.name)
  unfolding body_identifier Subscription.identifier Subscription.sub_name
  sub_at (subscription s) name e (src, dst, sync, extra, src_in, dst_in, made) = (
    src,
    dst,
    sync,
    extra,
    src_in,
    dst_in,
    ap subscription made,
    ap (λ k. k.id) e ∙ ap (λ s. Subscription.sub_name s) made,
  )
  sub_at _ name e w = absurd (ground arith)

  pub found :
      (k : Identifier) (m : Map Identifier Object) (o : Object)
      → AllWanted cfg conns m
      → lookup k m ≡ some o
      → (k ≡ body_identifier o.body) × IsWanted cfg conns o.body
  found k [] o h e = absurd (ground arith)
  found k ((j, p) ∷ m) o h e = elim (Bool-cases (k == j)) [
    | inl same ↦
        let q : p ≡ o = ground arith in
        subst (λ o. (k ≡ body_identifier o.body) × IsWanted cfg conns o.body) q
          ((==_iff k j).0 same ∙ h.0.0, h.0.1)
    | inr other ↦ found k m o h.1 (ground arith)
  ]
