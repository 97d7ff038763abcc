-- ===== src/Spock/Desired.antt =====
-- internal/spock/desired.go: `ComputeDesired` and `addPopulateResources`.
pub mod Rank
pub mod Bodies
pub mod Filling
pub mod Acyclic
pub mod Grows
pub mod Wanted
pub mod Mesh
pub mod Entries
pub mod Joined
mod Tests
use pgedge_helm.Base.{
  ℕ, suc, Bool, true, false, not, ◌&&◌, ◌||◌, List, [], ◌∷◌, ◌++◌, Option, none, some,
  if◌then◌else◌, ◌==◌,
}
use pgedge_helm.Base.Text.{Text, bytes, text_key, text_eq}
use pgedge_helm.Base.Maps.{Map, lookup, insert, contains}
use pgedge_helm.Config.{Node, Config}
use pgedge_helm.Resource.{Identifier, identifier_key, identifier_eq}
use pgedge_helm.Spock.Names.{pair_id}
use pgedge_helm.Spock.Types.{
  Conn, Address, ident, resource_type_wait_for_sync_event, resource_type_replication_origin_advance,
}
use pgedge_helm.Spock.User.{new_pgedge_user}
use pgedge_helm.Spock.SpockNode.{new_spock_node}
use pgedge_helm.Spock.ReplicationSlot.{new_replication_slot}
use pgedge_helm.Spock.Subscription.{new_subscription}
use pgedge_helm.Spock.ReplicationSlotCreate.{new_replication_slot_create}
use pgedge_helm.Spock.DisabledSubscription.{new_disabled_subscription}
use pgedge_helm.Spock.SyncEvent.{new_sync_event}
use pgedge_helm.Spock.WaitForSyncEvent.{new_wait_for_sync_event}
use pgedge_helm.Spock.PeerCatchup.{new_peer_catchup}
use pgedge_helm.Spock.LagTracker.{new_lag_tracker_commit_timestamp}
use pgedge_helm.Spock.SlotAdvance.{new_replication_slot_advance_from_cts}
use pgedge_helm.Spock.OriginAdvance.{new_replication_origin_advance}
use pgedge_helm.Spock.Object.{
  Body, user, node, slot, subscription, slot_create, disabled_subscription, sync_event,
  wait_for_sync_event, peer_catchup, lag_tracker, slot_advance, origin_advance, Object,
  body_identifier,
}

-- The map under construction, and the address of the next object.
pub record Building : Type 0 where
  pub resources : Map Identifier Object
  pub next : Address

-- `x := NewX(...); resources[x.Identifier()] = x`
unfoldable pub put : Body → Building → Building
put body b = record {
  resources = insert (body_identifier body) (record { address = b.next; body = body }) b.resources;
  next = suc b.next;
}

abbrev pub Conns : Type 0
Conns = Map Text ℕ

-- `conns[name]`
abbrev pub conn_of : Conns → Text → Conn
conn_of conns name = lookup name conns

-- Nodes that are to be filled from a source.
abbrev pub needs_populate : Node → Bool
needs_populate n = n.bootstrap.mode == bytes "spock" && not (n.bootstrap.source_node == bytes "")

unfoldable pub new_nodes : List Node → Map Text Node → Map Text Node
new_nodes [] m = m
new_nodes (n ∷ ns) m = new_nodes ns (if needs_populate n then insert n.name n m else m)

module _ (cfg : Config) (conns : Conns) where
  unfoldable pub add_users_and_nodes : List Node → Building → Building
  add_users_and_nodes [] b = b
  add_users_and_nodes (n ∷ ns) b =
      let c = conn_of conns n.name in
      add_users_and_nodes ns (
        put (node (new_spock_node n cfg.db_name cfg.pgedge_user c))
          (put (user (new_pgedge_user n cfg.db_name cfg.pgedge_user c)) b))

  -- The body of the loop of `addPopulateResources`, for a peer that is neither end.
  pub add_peer : (peer new_node : Node) → Building → Building
  add_peer peer new_node b0 =
      let source = new_node.bootstrap.source_node in
      let at_peer = conn_of conns peer.name in
      let at_new = conn_of conns new_node.name in
      let at_source = conn_of conns source in
      let create =
        slot_create (new_replication_slot_create peer.name new_node.name cfg.db_name at_peer) in
      let b1 = put create b0 in
      let disabled =
        disabled_subscription
          (new_disabled_subscription peer new_node cfg.db_name cfg.pgedge_user at_new) in
      let b2 = put disabled b1 in
      let event =
        sync_event (new_sync_event peer.name source at_peer (body_identifier create ∷ [])) in
      let b3 = put event b2 in
      let b4 =
        put (wait_for_sync_event (new_wait_for_sync_event peer.name source b2.next at_source)) b3 in
      let b5 = put (peer_catchup (new_peer_catchup peer.name source b2.next at_source)) b4 in
      let lag = lag_tracker (
        new_lag_tracker_commit_timestamp peer.name new_node.name at_new
          (ident resource_type_wait_for_sync_event (pair_id source new_node.name) ∷ [])) in
      let b6 = put lag b5 in
      let advance = slot_advance (
        new_replication_slot_advance_from_cts peer.name new_node.name cfg.db_name b5.next
          at_peer) in
      let b7 = put advance b6 in
      put
        (origin_advance
          (new_replication_origin_advance peer.name new_node.name cfg.db_name b6.next at_new))
        b7

  -- What the source→new subscription has to wait for at a peer.
  abbrev pub peer_waits : (peer new_node : Node) → List Identifier
  peer_waits peer new_node =
      let source = new_node.bootstrap.source_node in
      body_identifier (wait_for_sync_event (new_wait_for_sync_event peer.name source 0 none))
      ∷ body_identifier (peer_catchup (new_peer_catchup peer.name source 0 none))
      ∷ []

  -- `peer.Name == newNode.Name || peer.Name == sourceNode`
  abbrev pub is_end : (peer new_node : Node) → Bool
  is_end peer new_node = peer.name == new_node.name || peer.name == new_node.bootstrap.source_node

  pub add_peers : List Node → Node → Building → Building
  add_peers [] new_node b = b
  add_peers (peer ∷ peers) new_node b =
      add_peers peers new_node (if is_end peer new_node then b else add_peer peer new_node b)

  pub gates : List Node → Node → List Identifier
  gates [] new_node = []
  gates (peer ∷ peers) new_node =
      (if is_end peer new_node then [] else peer_waits peer new_node) ++ gates peers new_node

  pub add_populate_resources : Node → Building → Building × List Identifier
  unfolding add_peers add_peer gates
  add_populate_resources new_node b0 =
      let source = new_node.bootstrap.source_node in
      let b1 = add_peers cfg.nodes new_node b0 in
      let b2 =
        put (sync_event (new_sync_event source new_node.name (conn_of conns source) [])) b1 in
      let b3 =
        put
          (wait_for_sync_event
            (new_wait_for_sync_event source new_node.name b1.next (conn_of conns new_node.name)))
          b2 in
      (b3, gates cfg.nodes new_node)

  -- The loop over `newNodes`, with `peerDeps`.
  unfoldable pub add_new_nodes :
      Map Text Node → Building × Map Text (List Identifier) → Building × Map Text (List Identifier)
  add_new_nodes [] st = st
  add_new_nodes ((name, n) ∷ rest) (b, deps) =
      let (b', waits) = add_populate_resources n b in
      add_new_nodes rest (b', insert n.name waits deps)

  -- `peerDeps[name]`
  abbrev pub deps_of : Map Text (List Identifier) → Text → List Identifier
  deps_of deps name = elim (lookup name deps) [ none ↦ [] | some l ↦ l ]

  module _ (fresh : Map Text Node) (peer_deps : Map Text (List Identifier)) where
    -- Whether this is the subscription that fills a new node from its source.
    abbrev pub is_filling : (src dst : Node) → Bool
    is_filling src dst = elim (lookup dst.name fresh) [
      | none ↦ false
      | some n ↦ src.name == n.bootstrap.source_node
    ]

    abbrev pub extra_deps : (src dst : Node) → List Identifier
    extra_deps src dst =
        (if contains dst.name fresh
          then ident resource_type_replication_origin_advance (pair_id src.name dst.name) ∷ []
          else [])
        ++ elim (lookup src.name fresh) [
          | none ↦ []
          | some n ↦
              ident resource_type_wait_for_sync_event (pair_id n.bootstrap.source_node src.name)
              ∷ []
        ]

    abbrev pub end_state_subscription : (src dst : Node) → Body
    end_state_subscription src dst =
        let c = conn_of conns dst.name in
        if is_filling src dst
        then subscription (
            new_subscription src dst cfg.db_name cfg.pgedge_user true c
              (deps_of peer_deps dst.name))
        else subscription
            (new_subscription src dst cfg.db_name cfg.pgedge_user false c (extra_deps src dst))

    pub add_pair : (src dst : Node) → Building → Building
    add_pair src dst b =
        if src.name == dst.name
        then b
        else put (end_state_subscription src dst) (
            put (slot (new_replication_slot src.name dst.name cfg.db_name (conn_of conns src.name)))
              b)

    unfoldable pub add_pairs_from : Node → List Node → Building → Building
    unfolding add_pair
    add_pairs_from src [] b = b
    add_pairs_from src (dst ∷ dsts) b = add_pairs_from src dsts (add_pair src dst b)

    unfoldable pub add_pairs : List Node → Building → Building
    unfolding add_pairs_from
    add_pairs [] b = b
    add_pairs (src ∷ srcs) b = add_pairs srcs (add_pairs_from src cfg.nodes b)

  unfoldable pub compute_desired : Address → Building
  compute_desired next =
      let b1 = add_users_and_nodes cfg.nodes (record { resources = []; next = next }) in
      let fresh = new_nodes cfg.nodes [] in
      let (b2, peer_deps) = add_new_nodes fresh (b1, []) in add_pairs fresh peer_deps cfg.nodes b2
