-- ===== src/Spock/Desired/Joined.antt =====
-- `ComputeDesired` (internal/spock/desired.go): the objects that it wants for each pair of nodes.
use mathlib.Core.List.{Memᴰ}
use pgedge_helm.Base.{
  ◌≡◌, sym, ap, ◌∙◌, arith, Bool, true, false, List, some, elem, All-elem, ◌==◌, Nodup, All,
  Option-cases, inl, inr,
}
use pgedge_helm.Base.Text.{Text, text_key}
use pgedge_helm.Base.Maps.{Map, lookup}
use pgedge_helm.Config.{Node, Config}
use pgedge_helm.Resource.{Identifier, identifier_key}
use pgedge_helm.Spock.Names.{spock_slot_name, spock_sub_name}
use pgedge_helm.Spock.Types.{
  Address, ident, resource_type_user, resource_type_node, resource_type_replication_slot,
  resource_type_subscription,
}
use pgedge_helm.Spock.Object.{Body, user, node, slot, subscription, Object}
use pgedge_helm.Spock.Desired.{Building, Conns, compute_desired}
use pgedge_helm.Spock.Desired.Grows.{Has}
use pgedge_helm.Spock.Desired.Filling.{node_names}
use pgedge_helm.Spock.Desired.Mesh.{compute_desired-HasPair}
use pgedge_helm.Spock.Desired.Wanted.{
  user_of, node_of, slot_of, sub_of, AllWanted, compute_desired-AllWanted,
}
use pgedge_helm.Spock.Desired.Entries.{
  NamesApart, name_in, one_node, user_at, node_at, slot_at, sub_at, found,
}
use pgedge_helm.Spock.Names.Distinct.{IsPlain, spock_slot_name-injective, spock_sub_name-injective}

module _ (cfg : Config) (conns : Conns) where
  -- An object with this body stands at this key.
  abbrev pub Holds : Identifier → Map Identifier Object → Body → Type 0
  Holds k m b = (o : Object) × (lookup k m ≡ some o) × (o.body ≡ b)

  -- What there is for a pair: the role and the Spock node of both, the slot at the source, and the
  -- subscription at the destination.
  pub record IsJoined (src dst : Node) (m : Map Identifier Object) : Type 0 where
    pub src_user : Holds (ident resource_type_user src.name) m (user (user_of cfg conns src))
    pub src_node : Holds (ident resource_type_node src.name) m (node (node_of cfg conns src))
    pub dst_user : Holds (ident resource_type_user dst.name) m (user (user_of cfg conns dst))
    pub dst_node : Holds (ident resource_type_node dst.name) m (node (node_of cfg conns dst))
    pub slot_held :
        Holds
          (ident resource_type_replication_slot (spock_slot_name cfg.db_name src.name dst.name))
          m
          (slot (slot_of cfg conns src dst))
    pub sync : Bool
    pub extra_deps : List Identifier
    pub sub_held :
        Holds
          (ident resource_type_subscription (spock_sub_name src.name dst.name))
          m
          (subscription (sub_of cfg conns src dst sync extra_deps))

  some_object :
      (k : Identifier) (b : Building) → Has k b → (o : Object) × (lookup k b.resources ≡ some o)
  some_object k b h = elim (Option-cases (lookup k b.resources)) [
    | inl missing ↦ absurd (ground arith)
    | inr (o, e) ↦ (o, e)
  ]

  module _ (apart : NamesApart cfg) (b : Building) (wanted : AllWanted cfg conns b.resources) where
    same_node : (x y : Node) → Memᴰ x cfg.nodes → Memᴰ y cfg.nodes → x.name ≡ y.name → x ≡ y
    same_node x y = one_node x y cfg.nodes apart.nodup

    user_held :
        (n : Node)
        → Memᴰ n cfg.nodes
        → Has (ident resource_type_user n.name) b
        → Holds (ident resource_type_user n.name) b.resources (user (user_of cfg conns n))
    user_held n n_in h =
        let (o, e) = some_object (ident resource_type_user n.name) b h in
        let (at, w) = found cfg conns (ident resource_type_user n.name) b.resources o wanted e in
        let (x, x_in, is_user, named) = user_at cfg conns o.body n.name at w in
        (o, e, is_user ∙ ap (λ y. user (user_of cfg conns y)) (same_node x n x_in n_in (sym named)))

    node_held :
        (n : Node)
        → Memᴰ n cfg.nodes
        → Has (ident resource_type_node n.name) b
        → Holds (ident resource_type_node n.name) b.resources (node (node_of cfg conns n))
    node_held n n_in h =
        let (o, e) = some_object (ident resource_type_node n.name) b h in
        let (at, w) = found cfg conns (ident resource_type_node n.name) b.resources o wanted e in
        let (x, x_in, is_node, named) = node_at cfg conns o.body n.name at w in
        (o, e, is_node ∙ ap (λ y. node (node_of cfg conns y)) (same_node x n x_in n_in (sym named)))

    module _ (src dst : Node) (src_in : Memᴰ src cfg.nodes) (dst_in : Memᴰ dst cfg.nodes) where
      slot_there :
          Has
            (ident resource_type_replication_slot (spock_slot_name cfg.db_name src.name dst.name))
            b
          → Holds
              (ident resource_type_replication_slot (spock_slot_name cfg.db_name src.name dst.name))
              b.resources
              (slot (slot_of cfg conns src dst))
      slot_there h =
          let name = spock_slot_name cfg.db_name src.name dst.name in
          let (o, e) = some_object (ident resource_type_replication_slot name) b h in
          let (at, w) =
            found cfg conns (ident resource_type_replication_slot name) b.resources o wanted e in
          let (x, y, x_in, y_in, is_slot, named) = slot_at cfg conns o.body name at w in
          let (p, q) =
            apart.slot_name_inj src.name dst.name x.name y.name (name_in src cfg.nodes src_in)
              (name_in dst cfg.nodes dst_in) (name_in x cfg.nodes x_in) (name_in y cfg.nodes y_in)
              named in
          let same_src = same_node x src x_in src_in (sym p) in
          let same_dst = same_node y dst y_in dst_in (sym q) in
          (
            o,
            e,
            is_slot
                ∙ ap (λ n. slot (slot_of cfg conns n y)) same_src
                ∙ ap (λ n. slot (slot_of cfg conns src n)) same_dst,
          )

      sub_there :
          Has (ident resource_type_subscription (spock_sub_name src.name dst.name)) b
          → (sync : Bool) × (extra : List Identifier) × Holds
              (ident resource_type_subscription (spock_sub_name src.name dst.name))
              b.resources
              (subscription (sub_of cfg conns src dst sync extra))
      sub_there h =
          let name = spock_sub_name src.name dst.name in
          let (o, e) = some_object (ident resource_type_subscription name) b h in
          let (at, w) =
            found cfg conns (ident resource_type_subscription name) b.resources o wanted e in
          let (x, y, sync, extra, x_in, y_in, is_sub, named) = sub_at cfg conns o.body name at w in
          let (p, q) =
            apart.sub_name_inj src.name dst.name x.name y.name (name_in src cfg.nodes src_in)
              (name_in dst cfg.nodes dst_in) (name_in x cfg.nodes x_in) (name_in y cfg.nodes y_in)
              named in
          let same_src = same_node x src x_in src_in (sym p) in
          let same_dst = same_node y dst y_in dst_in (sym q) in
          (
            sync,
            extra,
            (
              o,
              e,
              is_sub
                  ∙ ap (λ n. subscription (sub_of cfg conns n y sync extra)) same_src
                  ∙ ap (λ n. subscription (sub_of cfg conns src n sync extra)) same_dst,
            ),
          )

  -- `ComputeDesired` wants the whole mesh, where no two nodes have one name and no two pairs of them
  -- one name of a slot or a subscription: for two different nodes, at their identifiers, the role and
  -- the Spock node of both, with the connection of each, the slot of the pair with the connection of
  -- the source, and the subscription of the pair with the connection of the destination.
  pub compute_desired-IsJoined :
      (next : Address) (src dst : Node)
      → NamesApart cfg
      → Memᴰ src cfg.nodes
      → Memᴰ dst cfg.nodes
      → (src.name == dst.name) ≡ false
      → IsJoined src dst (compute_desired cfg conns next).resources
  compute_desired-IsJoined next src dst apart src_in dst_in other =
      let b = compute_desired cfg conns next in
      let wanted = compute_desired-AllWanted cfg conns next in
      let (at_src, at_dst, has_slot, has_sub) =
        compute_desired-HasPair cfg conns next src dst src_in dst_in other in
      let (sync, extra, sub_held) = sub_there apart b wanted src dst src_in dst_in has_sub in
      record {
        src_user = user_held apart b wanted src src_in at_src.0;
        src_node = node_held apart b wanted src src_in at_src.1;
        dst_user = user_held apart b wanted dst dst_in at_dst.0;
        dst_node = node_held apart b wanted dst dst_in at_dst.1;
        slot_held = slot_there apart b wanted src dst src_in dst_in has_slot;
        sync = sync;
        extra_deps = extra;
        sub_held = sub_held;
      }

-- Plain names keep apart.
pub plain-NamesApart :
    (cfg : Config) → Nodup (node_names cfg) → All IsPlain (node_names cfg) → NamesApart cfg
plain-NamesApart cfg nodup h =
    let plain =
      λ (t : Text) (m : elem t (node_names cfg) ≡ true). All-elem IsPlain (node_names cfg) t h m in
    record {
      nodup = nodup;
      slot_name_inj = λ a b c d ma mb mc md e.
          spock_slot_name-injective cfg.db_name a b c d (plain a ma) (plain b mb) (plain c mc)
            (plain d md) e;
      sub_name_inj = λ a b c d ma mb mc md e.
          spock_sub_name-injective a b c d (plain a ma) (plain b mb) (plain c mc) (plain d md) e;
    }
