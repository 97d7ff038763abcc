-- ===== src/Spock/Desired/Acyclic.antt =====
-- The dependencies of `ComputeDesired` (internal/spock/desired.go) have no cycle, where at most
-- one node is filled.
use pgedge_helm.Base.{
  ℕ, ◌<◌, ◌≡◌, sym, true, false, List, [], ◌∷◌, elem, ◌==◌, ==_refl, All, All-elem, All-map,
  if◌then◌else◌, arith, subst, Bool-cases, inl, inr, map,
}
use pgedge_helm.Base.Text.{Text, text_key}
use pgedge_helm.Base.Maps.{Map}
use pgedge_helm.Config.{Node, Config}
use pgedge_helm.Resource.{Identifier, identifier_key}
use pgedge_helm.Spock.Types.{Address}
use pgedge_helm.Spock.ReplicationSlot.{new_replication_slot}
use pgedge_helm.Spock.Object.{Body, slot, Object, body_identifier, body_dependencies}
use pgedge_helm.Spock.Desired.{
  Building, put, Conns, conn_of, add_users_and_nodes, add_populate_resources, add_new_nodes,
  end_state_subscription, add_pair, add_pairs_from, add_pairs, new_nodes, compute_desired,
}
use pgedge_helm.Spock.Desired.Rank.{IsUnambiguous, rank}
use pgedge_helm.Spock.Desired.Bodies.{rk, IsLow, slot-IsLow, subscription-IsLow}
use pgedge_helm.Spock.Desired.Filling.{
  AllLow, put-AllLow, users-AllLow, node_names, populate-Low, end_state_subscription-IsLow,
}

module _ (cfg : Config) (conns : Conns) (n s : Text) (fresh : Map Text Node)
    (peer_deps : Map Text (List Identifier))
    (pair_low : (src dst : Node)
      → elem src.name (node_names cfg) ≡ true
      → elem dst.name (node_names cfg) ≡ true
      → (src.name == dst.name) ≡ false
      → IsLow (node_names cfg) n s (end_state_subscription cfg conns fresh peer_deps src dst)) where
  abbrev Known : List Node → Type 0
  Known = All (λ x. elem x.name (node_names cfg) ≡ true)

  abbrev Low : Building → Type 0
  Low b = AllLow cfg conns (node_names cfg) n s b.resources

  add_pair-Low :
      (src dst : Node) (b : Building)
      → elem src.name (node_names cfg) ≡ true
      → elem dst.name (node_names cfg) ≡ true
      → Low b
      → Low (add_pair cfg conns fresh peer_deps src dst b)
  unfolding add_pair
  add_pair-Low src dst b src_in dst_in low = elim (Bool-cases (src.name == dst.name)) [
    | inl same ↦ subst (λ c. Low (if c then b else added)) (sym same) low
    | inr differ ↦
        subst (λ c. Low (if c then b else added)) (sym differ)
          (put-AllLow cfg conns (node_names cfg) n s
            (end_state_subscription cfg conns fresh peer_deps src dst) (put slot_body b)
            (pair_low src dst src_in dst_in differ)
            (put-AllLow cfg conns (node_names cfg) n s slot_body b
              (slot-IsLow (node_names cfg) n s src.name dst.name cfg.db_name
                (conn_of conns src.name))
              low))
  ]
    where
      slot_body : Body
      slot_body = slot (new_replication_slot src.name dst.name cfg.db_name (conn_of conns src.name))

      added : Building
      added = put (end_state_subscription cfg conns fresh peer_deps src dst) (put slot_body b)

  add_pairs_from-Low :
      (src : Node) (dsts : List Node) (b : Building)
      → elem src.name (node_names cfg) ≡ true
      → Known dsts
      → Low b
      → Low (add_pairs_from cfg conns fresh peer_deps src dsts b)
  unfolding add_pairs_from
  add_pairs_from-Low src [] b src_in known low = low
  add_pairs_from-Low src (x ∷ xs) b src_in known low =
      add_pairs_from-Low src xs (add_pair cfg conns fresh peer_deps src x b) src_in known.1
        (add_pair-Low src x b src_in known.0 low)

  add_pairs-Low :
      (srcs : List Node) (b : Building)
      → Known cfg.nodes
      → Known srcs
      → Low b
      → Low (add_pairs cfg conns fresh peer_deps srcs b)
  unfolding add_pairs
  add_pairs-Low [] b all known low = low
  add_pairs-Low (x ∷ xs) b all known low =
      add_pairs-Low xs (add_pairs_from cfg conns fresh peer_deps x cfg.nodes b) all known.1
        (add_pairs_from-Low x cfg.nodes b known.0 all low)

nodes_known :
    (xs all : List Node)
    → ((k : Text) → elem k (map (λ x. x.name) xs) ≡ true → elem k (map (λ x. x.name) all) ≡ true)
    → All (λ x. elem x.name (map (λ y. y.name) all) ≡ true) xs
nodes_known [] all h = tt
nodes_known (x ∷ xs) all h =
    (h x.name (ground (arith, ==_refl x.name)), nodes_known xs all (λ k m. h k (ground arith)))

-- How many nodes are filled: none, or one from another node of the configuration.
pub data FillsAtMostOne (cfg : Config) : Type 0 where
  none_fills : new_nodes cfg.nodes [] ≡ [] → FillsAtMostOne cfg
  one_fills :
      (fill : Node)
      → new_nodes cfg.nodes [] ≡ (fill.name, fill) ∷ []
      → elem fill.name (node_names cfg) ≡ true
      → elem fill.bootstrap.source_node (node_names cfg) ≡ true
      → (fill.bootstrap.source_node == fill.name) ≡ false
      → FillsAtMostOne cfg

-- A rank that falls along every dependency of every resource of the map.
pub record HasRank (resources : Map Identifier Object) : Type 0 where
  pub rank_of : Identifier → ℕ
  pub falls :
      All
        (λ e.
          (d : Identifier)
          → elem d (body_dependencies e.1.body) ≡ true
          → rank_of d < rank_of (body_identifier e.1.body))
        resources

module _ (cfg : Config) (conns : Conns) (next : Address) where
  abbrev with_fresh : Map Text Node → Building
  with_fresh fresh =
      let b1 = add_users_and_nodes cfg conns cfg.nodes (record { resources = []; next = next }) in
      let (b2, peer_deps) = add_new_nodes cfg conns fresh (b1, []) in
      add_pairs cfg conns fresh peer_deps cfg.nodes b2

  known : All (λ x. elem x.name (node_names cfg) ≡ true) cfg.nodes
  known = nodes_known cfg.nodes cfg.nodes (λ k m. m)

  -- Every resource ranks above what it depends on, in the rank for some node that is filled.
  pub record AllRanked (m : Map Identifier Object) : Type 0 where
    pub filled : Text
    pub source : Text
    pub low : AllLow cfg conns (node_names cfg) filled source m

  ranked :
      (n s : Text) (m : Map Identifier Object)
      → AllLow cfg conns (node_names cfg) n s m
      → AllRanked m
  ranked n s m low = record { filled = n; source = s; low = low }

  pub to_HasRank : (m : Map Identifier Object) → AllRanked m → HasRank m
  to_HasRank m h = record {
    rank_of = rank (node_names cfg) h.filled h.source;
    falls =
        All-map
          (λ e l d dep.
            All-elem
              (λ x.
                rk (node_names cfg) h.filled h.source x
                < rk (node_names cfg) h.filled h.source (body_identifier e.1.body))
              (body_dependencies e.1.body) d l dep)
          m h.low;
  }

  nothing_fills : AllRanked (with_fresh []).resources
  unfolding add_new_nodes
  nothing_fills =
      let b1 = add_users_and_nodes cfg conns cfg.nodes (record { resources = []; next = next }) in
      ranked [] [] _ (
        add_pairs-Low cfg conns [] [] [] []
          (λ src dst _ _ _.
            subscription-IsLow (node_names cfg) [] [] src dst cfg.db_name cfg.pgedge_user false
              (conn_of conns dst.name) [] tt)
          cfg.nodes b1 known known (users-AllLow cfg conns (node_names cfg) [] [] cfg.nodes _ tt))

  one_node_fills :
      (fill : Node)
      → IsUnambiguous (node_names cfg)
      → elem fill.name (node_names cfg) ≡ true
      → elem fill.bootstrap.source_node (node_names cfg) ≡ true
      → (fill.bootstrap.source_node == fill.name) ≡ false
      → AllRanked (with_fresh ((fill.name, fill) ∷ [])).resources
  unfolding add_new_nodes
  one_node_fills fill h n_in s_in ne =
      let n = fill.name in
      let s = fill.bootstrap.source_node in
      let b1 = add_users_and_nodes cfg conns cfg.nodes (record { resources = []; next = next }) in
      let (low, below) =
        populate-Low cfg conns fill h n_in s_in ne b1 known
          (users-AllLow cfg conns (node_names cfg) n s cfg.nodes _ tt) in
      let (b2, waits) = add_populate_resources cfg conns fill b1 in
      ranked n s _ (
        add_pairs-Low cfg conns n s ((n, fill) ∷ []) ((n, waits) ∷ [])
          (end_state_subscription-IsLow cfg conns fill h n_in s_in ne waits below) cfg.nodes b2
          known known low)

  pub compute_desired-AllRanked :
      IsUnambiguous (node_names cfg)
      → FillsAtMostOne cfg
      → AllRanked (compute_desired cfg conns next).resources
  unfolding compute_desired
  compute_desired-AllRanked h (none_fills e) =
      subst (λ m. AllRanked (with_fresh m).resources) (sym e) nothing_fills
  compute_desired-AllRanked h (one_fills fill e n_in s_in ne) =
      subst (λ m. AllRanked (with_fresh m).resources) (sym e) (one_node_fills fill h n_in s_in ne)

  -- The resources that `ComputeDesired` returns have a rank that falls along every dependency,
  -- so that dependencies have no cycle: where no names collide and at most one node is filled.
  pub compute_desired-HasRank :
      IsUnambiguous (node_names cfg)
      → FillsAtMostOne cfg
      → HasRank (compute_desired cfg conns next).resources
  compute_desired-HasRank h fills =
      to_HasRank (compute_desired cfg conns next).resources (compute_desired-AllRanked h fills)
