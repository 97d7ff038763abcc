-- ===== src/Spock/Desired/Filling.antt =====
-- Where one node is filled, every resource of internal/spock/desired.go ranks above what it needs.
use pgedge_helm.Base.{
  ◌<◌, ◌≡◌, sym, true, false, List, [], ◌∷◌, elem, ◌==◌, ==_iff, All, All-map, if◌then◌else◌,
  if_ind, arith, none, subst, Bool-cases, inl, inr, map,
}
use pgedge_helm.Base.Text.{Text, text_key}
use pgedge_helm.Base.Maps.{Map, insert}
use pgedge_helm.Config.{Node, Config}
use pgedge_helm.Resource.{Identifier, identifier_key}
use pgedge_helm.Spock.Names.{pair_id, spock_sub_name}
use pgedge_helm.Spock.Types.{
  ident, resource_type_wait_for_sync_event, resource_type_replication_origin_advance,
}
use pgedge_helm.Spock.Subscription.{new_subscription}
use pgedge_helm.Spock.Object.{Body, subscription, Object, body_identifier}
use pgedge_helm.Spock.Desired.{
  Building, put, Conns, conn_of, add_users_and_nodes, add_peer, is_end, add_peers, gates,
  add_populate_resources, end_state_subscription,
}
use pgedge_helm.Spock.Desired.Rank.{
  IsUnambiguous, sub_rank, sub_rank_filling, sub_rank_into, sub_rank_from,
}
use pgedge_helm.Spock.Desired.Bodies.{
  rk, IsLow, user-IsLow, node-IsLow, slot_create-IsLow, disabled_subscription-IsLow,
  subscription-IsLow, peer_event-IsLow, peer_wait-IsLow, peer_catchup-IsLow, gates_low,
  lag_tracker-IsLow, slot_advance-IsLow, origin_advance-IsLow, source_event-IsLow,
  source_wait-IsLow, rank_source_wait, rank_origin,
}

abbrev pub name_of : Node → Text
name_of x = x.name

pub insert-All :
    (P : Object → Type 0) (k : Identifier) (v : Object) (m : Map Identifier Object)
    → P v
    → All (λ e. P e.1) m
    → All (λ e. P e.1) (insert k v m)
insert-All P k v [] p h = (p, tt)
insert-All P k v ((j, w) ∷ m) p h =
    if_ind (All (λ e. P e.1)) (k == j) (p, h.1) (h.0, insert-All P k v m p h.1)

module _ (cfg : Config) (conns : Conns) (names : List Text) (n s : Text) where
  abbrev pub AllLow : Map Identifier Object → Type 0
  AllLow = All (λ e. IsLow names n s e.1.body)

  pub put-AllLow :
      (body : Body) (b : Building)
      → IsLow names n s body
      → AllLow b.resources
      → AllLow (put body b).resources
  unfolding put
  put-AllLow body b low h =
      insert-All (λ o. IsLow names n s o.body) (body_identifier body)
        (record { address = b.next; body = body }) b.resources low h

  pub users-AllLow :
      (nodes : List Node) (b : Building)
      → AllLow b.resources
      → AllLow (add_users_and_nodes cfg conns nodes b).resources
  unfolding add_users_and_nodes
  users-AllLow [] b h = h
  users-AllLow (x ∷ xs) b h = users-AllLow xs _ (
      put-AllLow _ _ (node-IsLow names n s x cfg.db_name cfg.pgedge_user (conn_of conns x.name)) (
        put-AllLow _ b (user-IsLow names n s x cfg.db_name cfg.pgedge_user (conn_of conns x.name))
          h))

abbrev pub node_names : Config → List Text
node_names cfg = map name_of cfg.nodes

module _ (cfg : Config) (conns : Conns) (fill : Node) where
  abbrev pub Low : Building → Type 0
  Low b = AllLow cfg conns (node_names cfg) fill.name fill.bootstrap.source_node b.resources

  module _ (h : IsUnambiguous (node_names cfg)) (n_in : elem fill.name (node_names cfg) ≡ true)
      (s_in : elem fill.bootstrap.source_node (node_names cfg) ≡ true)
      (ne : (fill.bootstrap.source_node == fill.name) ≡ false) where
    put-Low :
        (body : Body) (b : Building)
        → IsLow (node_names cfg) fill.name fill.bootstrap.source_node body
        → Low b
        → Low (put body b)
    put-Low body b =
        put-AllLow cfg conns (node_names cfg) fill.name fill.bootstrap.source_node body b

    peer-Low :
        (peer : Node) (b : Building)
        → elem peer.name (node_names cfg) ≡ true
        → is_end cfg conns peer fill ≡ false
        → Low b
        → Low (add_peer cfg conns peer fill b)
    unfolding add_peer
    peer-Low peer b p_in apart low =
        let n = fill.name in
        let s = fill.bootstrap.source_node in
        let db = cfg.db_name in
        let other : (peer.name == fill.name) ≡ false = ground arith in
        put-Low _ _ (origin_advance-IsLow (node_names cfg) n s peer.name n db _ _) (
          put-Low _ _ (slot_advance-IsLow (node_names cfg) n s peer.name n db _ _) (
            put-Low _ _ (lag_tracker-IsLow (node_names cfg) n s peer.name _) (
              put-Low _ _
                (peer_catchup-IsLow (node_names cfg) n s h n_in s_in ne peer.name _ _ p_in)
                (put-Low _ _
                  (peer_wait-IsLow (node_names cfg) n s h n_in s_in ne peer.name _ _ p_in)
                  (put-Low _ _
                    (peer_event-IsLow (node_names cfg) n s h n_in s_in ne peer.name db _ p_in other)
                    (put-Low _ _
                      (disabled_subscription-IsLow (node_names cfg) n s peer fill db cfg.pgedge_user
                        _)
                      (put-Low _ b (slot_create-IsLow (node_names cfg) n s peer.name n db _)
                        low)))))))

    pub peers-Low :
        (peers : List Node) (b : Building)
        → All (λ p. elem p.name (node_names cfg) ≡ true) peers
        → Low b
        → Low (add_peers cfg conns peers fill b)
    unfolding add_peers
    peers-Low [] b known low = low
    peers-Low (p ∷ ps) b known low =
        peers-Low ps (if is_end cfg conns p fill then b else add_peer cfg conns p fill b) known.1
          (elim (Bool-cases (is_end cfg conns p fill)) [
            | inl ended ↦
                subst (λ c. Low (if c then b else add_peer cfg conns p fill b)) (sym ended) low
            | inr apart ↦
                subst (λ c. Low (if c then b else add_peer cfg conns p fill b)) (sym apart)
                  (peer-Low p b known.0 apart low)
          ])

    gates_below :
        (peers : List Node)
        → All (λ p. elem p.name (node_names cfg) ≡ true) peers
        → All
            (λ d. rk (node_names cfg) fill.name fill.bootstrap.source_node d < 6)
            (gates cfg conns peers fill)
    unfolding gates
    gates_below [] known = tt
    gates_below (p ∷ ps) known = elim (Bool-cases (is_end cfg conns p fill)) [
      | inl ended ↦ rw ended (gates_below ps known.1)
      | inr apart ↦
          let (w, c) =
            gates_low (node_names cfg) fill.name fill.bootstrap.source_node h n_in s_in ne p.name 0
              none known.0 in
          rw apart (w, (c, gates_below ps known.1))
    ]

    pub populate-Low :
        (b : Building)
        → All (λ p. elem p.name (node_names cfg) ≡ true) cfg.nodes
        → Low b
        → Low (add_populate_resources cfg conns fill b).0
          × All
              (λ d. rk (node_names cfg) fill.name fill.bootstrap.source_node d < 6)
              (add_populate_resources cfg conns fill b).1
    unfolding add_populate_resources
    populate-Low b known low = (
      put-Low _ _ (source_wait-IsLow (node_names cfg) fill.name fill.bootstrap.source_node _ _) (
          put-Low _ _ (source_event-IsLow (node_names cfg) fill.name fill.bootstrap.source_node _)
            (peers-Low cfg.nodes b known low)),
      gates_below cfg.nodes known,
    )

    module _ (waits : List Identifier)
        (below : All
          (λ d. rk (node_names cfg) fill.name fill.bootstrap.source_node d < 6)
          waits) where
      abbrev pub fresh : Map Text Node
      fresh = (fill.name, fill) ∷ []

      abbrev pub peer_deps : Map Text (List Identifier)
      peer_deps = (fill.name, waits) ∷ []

      pub end_state_subscription-IsLow :
          (src dst : Node)
          → elem src.name (node_names cfg) ≡ true
          → elem dst.name (node_names cfg) ≡ true
          → (src.name == dst.name) ≡ false
          → IsLow
              (node_names cfg)
              fill.name
              fill.bootstrap.source_node
              (end_state_subscription cfg conns fresh peer_deps src dst)
      end_state_subscription-IsLow src dst src_in dst_in differ =
          let n = fill.name in
          let s = fill.bootstrap.source_node in
          let ns = node_names cfg in
          elim (Bool-cases (dst.name == fill.name)) [
            | inl to_new ↦
                let at_new = (==_iff dst.name n).0 to_new in
                elim (Bool-cases (src.name == fill.bootstrap.source_node)) [
                  | inl from_source ↦
                      let own : sub_rank ns n s (spock_sub_name src.name dst.name) ≡ 6 =
                        cc ((==_iff src.name s).0 from_source, at_new, sub_rank_filling ns n s) in
                      let body : end_state_subscription cfg conns fresh peer_deps src dst
                          ≡ subscription (
                              new_subscription src dst cfg.db_name cfg.pgedge_user true
                                (conn_of conns dst.name) (waits)) =
                        ground arith in
                      subst (IsLow ns n s) (sym body) (
                        subscription-IsLow ns n s src dst cfg.db_name cfg.pgedge_user true _ waits
                          (All-map (λ d l. omega (arith, own, l)) waits below))
                  | inr other ↦
                      let own : sub_rank ns n s (spock_sub_name src.name dst.name) ≡ 12 =
                        cc (at_new, sub_rank_into ns n s h n_in s_in ne src.name src_in other) in
                      let old : (src.name == fill.name) ≡ false =
                        subst (λ x. (src.name == x) ≡ false) at_new differ in
                      let body : end_state_subscription cfg conns fresh peer_deps src dst
                          ≡ subscription (
                              new_subscription src dst cfg.db_name cfg.pgedge_user false
                                (conn_of conns dst.name)
                                (ident resource_type_replication_origin_advance
                                    (pair_id src.name dst.name)
                                  ∷ [])) =
                        ground arith in
                      subst (IsLow ns n s) (sym body) (
                        subscription-IsLow ns n s src dst cfg.db_name cfg.pgedge_user false _ _
                          (omega (arith, own, rank_origin ns n s (pair_id src.name dst.name)), tt))
                ]
            | inr to_old ↦ elim (Bool-cases (src.name == fill.name)) [
              | inl from_new ↦
                  let at_new = (==_iff src.name n).0 from_new in
                  let own : sub_rank ns n s (spock_sub_name src.name dst.name) ≡ 9 =
                    cc (at_new, sub_rank_from ns n s h n_in s_in ne dst.name dst_in to_old) in
                  let wait : rk ns n s
                        (ident resource_type_wait_for_sync_event (pair_id s src.name))
                      ≡ 8 =
                    cc (at_new, rank_source_wait ns n s) in
                  let body : end_state_subscription cfg conns fresh peer_deps src dst
                      ≡ subscription (
                          new_subscription src dst cfg.db_name cfg.pgedge_user false
                            (conn_of conns dst.name)
                            (ident resource_type_wait_for_sync_event (pair_id s src.name) ∷ [])) =
                    ground arith in
                  subst (IsLow ns n s) (sym body) (
                    subscription-IsLow ns n s src dst cfg.db_name cfg.pgedge_user false _ _
                      (omega (arith, own, wait), tt))
              | inr from_old ↦
                  let body : end_state_subscription cfg conns fresh peer_deps src dst
                      ≡ subscription (
                          new_subscription src dst cfg.db_name cfg.pgedge_user false
                            (conn_of conns dst.name) ([])) =
                    ground arith in
                  subst (IsLow ns n s) (sym body)
                    (subscription-IsLow ns n s src dst cfg.db_name cfg.pgedge_user false _ [] tt)
            ]
          ]
