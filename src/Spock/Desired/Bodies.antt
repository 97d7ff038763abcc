-- ===== src/Spock/Desired/Bodies.antt =====
-- Each resource of internal/spock/desired.go depends on resources of a lower rank.
use pgedge_helm.Base.{
  ℕ, ◌<◌, ◌≡◌, refl, Bool, true, false, List, [], ◌∷◌, elem, ◌==◌, ==_refl, All, arith,
}
use pgedge_helm.Base.Text.{Text, text_key}
use pgedge_helm.Config.{Node}
use pgedge_helm.Resource.{Identifier}
use pgedge_helm.Spock.Names.{pair_id, spock_sub_name}
use pgedge_helm.Spock.Types.{
  Conn, Address, ident, resource_type_wait_for_sync_event, resource_type_replication_origin_advance,
}
use pgedge_helm.Spock.User.{new_pgedge_user}
use pgedge_helm.Spock.SpockNode.{new_spock_node}
use pgedge_helm.Spock.ReplicationSlot.{new_replication_slot}
use pgedge_helm.Spock.Subscription.{new_subscription}
use pgedge_helm.Spock.ReplicationSlotCreate.{new_replication_slot_create}
use pgedge_helm.Spock.DisabledSubscription.{new_disabled_subscription}
use pgedge_helm.Spock.SyncEvent.{new_sync_event}
use pgedge_helm.Spock.WaitForSyncEvent.{new_wait_for_sync_event}
use pgedge_helm.Spock.PeerCatchup.{new_peer_catchup}
use pgedge_helm.Spock.LagTracker.{new_lag_tracker_commit_timestamp}
use pgedge_helm.Spock.SlotAdvance.{new_replication_slot_advance_from_cts}
use pgedge_helm.Spock.OriginAdvance.{new_replication_origin_advance}
use pgedge_helm.Spock.Object.{
  Body, user, node, slot, subscription, slot_create, disabled_subscription, sync_event,
  wait_for_sync_event, peer_catchup, lag_tracker, slot_advance, origin_advance, body_identifier,
  body_dependencies,
}
use pgedge_helm.Spock.Desired.Rank.{
  IsUnambiguous, sub_rank, rank, sub_rank_min, sub_rank_filling, sub_rank_old, pair_id_peer,
}

module _ (names : List Text) (n s : Text) where
  abbrev pub rk : Identifier → ℕ
  rk = rank names n s

  abbrev pub IsLow : Body → Type 0
  IsLow body = All (λ d. rk d < rk (body_identifier body)) (body_dependencies body)

  pub user-IsLow : (x : Node) (db u : Text) (c : Conn) → IsLow (user (new_pgedge_user x db u c))
  unfolding body_dependencies
  user-IsLow x db u c = tt

  pub node-IsLow : (x : Node) (db u : Text) (c : Conn) → IsLow (node (new_spock_node x db u c))
  unfolding body_dependencies body_identifier rank new_spock_node
  node-IsLow x db u c = omega arith

  pub slot-IsLow : (p q db : Text) (c : Conn) → IsLow (slot (new_replication_slot p q db c))
  unfolding body_dependencies body_identifier rank new_replication_slot
  slot-IsLow p q db c = omega arith

  pub slot_create-IsLow :
      (p q db : Text) (c : Conn) → IsLow (slot_create (new_replication_slot_create p q db c))
  unfolding body_dependencies body_identifier rank new_replication_slot_create
  slot_create-IsLow p q db c = omega arith

  pub disabled_subscription-IsLow :
      (x y : Node) (db u : Text) (c : Conn)
      → IsLow (disabled_subscription (new_disabled_subscription x y db u c))
  unfolding body_dependencies body_identifier rank new_disabled_subscription
  disabled_subscription-IsLow x y db u c = omega arith

  -- A subscription ranks above what all subscriptions need, and by its own rank above the rest.
  pub subscription-IsLow :
      (x y : Node) (db u : Text) (sync : Bool) (c : Conn) (extra : List Identifier)
      → All (λ d. rk d < sub_rank names n s (spock_sub_name x.name y.name)) extra
      → IsLow (subscription (new_subscription x y db u sync c extra))
  unfolding body_dependencies body_identifier rank new_subscription
  subscription-IsLow x y db u sync c extra h =
      let floor = sub_rank_min names n s (spock_sub_name x.name y.name) in
      (omega (arith, floor), (omega (arith, floor), (omega (arith, floor), h)))

  module _ (h : IsUnambiguous names) (n_in : elem n names ≡ true) (s_in : elem s names ≡ true)
      (ne : (s == n) ≡ false) where
    pub peer_event-IsLow :
        (p db : Text) (c : Conn)
        → elem p names ≡ true
        → (p == n) ≡ false
        → IsLow (
            sync_event (
              new_sync_event p s c
                (body_identifier (slot_create (new_replication_slot_create p n db c)) ∷ [])))
    unfolding body_dependencies body_identifier rank new_sync_event new_replication_slot_create
    peer_event-IsLow p db c p_in other =
        let same = pair_id_peer names n s h n_in s_in ne p p_in in
        let low = sub_rank_old names n s h n_in s_in ne p s p_in s_in other ne in
        rw (same, low) (omega arith)

    pub peer_wait-IsLow :
        (p : Text) (a : Address) (c : Conn)
        → elem p names ≡ true
        → IsLow (wait_for_sync_event (new_wait_for_sync_event p s a c))
    unfolding body_dependencies body_identifier rank new_wait_for_sync_event
    peer_wait-IsLow p a c p_in =
        let same = pair_id_peer names n s h n_in s_in ne p p_in in rw same (omega arith)

    pub peer_catchup-IsLow :
        (p : Text) (a : Address) (c : Conn)
        → elem p names ≡ true
        → IsLow (peer_catchup (new_peer_catchup p s a c))
    unfolding body_dependencies body_identifier rank new_peer_catchup
    peer_catchup-IsLow p a c p_in =
        let same = pair_id_peer names n s h n_in s_in ne p p_in in rw same (omega arith)

    -- What the filling subscription waits for ranks below it.
    pub gates_low :
        (p : Text) (a : Address) (c : Conn)
        → elem p names ≡ true
        → (rk (body_identifier (wait_for_sync_event (new_wait_for_sync_event p s a c))) < 6)
          × (rk (body_identifier (peer_catchup (new_peer_catchup p s a c))) < 6)
    unfolding body_identifier rank new_peer_catchup new_wait_for_sync_event
    gates_low p a c p_in =
        let same = pair_id_peer names n s h n_in s_in ne p p_in in rw same (omega arith)

  pub lag_tracker-IsLow :
      (p : Text) (c : Conn)
      → IsLow (
          lag_tracker (
            new_lag_tracker_commit_timestamp p n c
              (ident resource_type_wait_for_sync_event (pair_id s n) ∷ [])))
  unfolding body_dependencies body_identifier rank new_lag_tracker_commit_timestamp
  lag_tracker-IsLow p c = rw (==_refl (pair_id s n)) (omega arith)

  pub slot_advance-IsLow :
      (p q db : Text) (a : Address) (c : Conn)
      → IsLow (slot_advance (new_replication_slot_advance_from_cts p q db a c))
  unfolding body_dependencies body_identifier rank new_replication_slot_advance_from_cts
  slot_advance-IsLow p q db a c = omega arith

  pub origin_advance-IsLow :
      (p q db : Text) (a : Address) (c : Conn)
      → IsLow (origin_advance (new_replication_origin_advance p q db a c))
  unfolding body_dependencies body_identifier rank new_replication_origin_advance
  origin_advance-IsLow p q db a c = omega arith

  pub source_event-IsLow : (c : Conn) → IsLow (sync_event (new_sync_event s n c []))
  unfolding body_dependencies body_identifier rank new_sync_event
  source_event-IsLow c = rw (==_refl (pair_id s n)) (rw (sub_rank_filling names n s) (omega arith))

  pub source_wait-IsLow :
      (a : Address) (c : Conn) → IsLow (wait_for_sync_event (new_wait_for_sync_event s n a c))
  unfolding body_dependencies body_identifier rank new_wait_for_sync_event
  source_wait-IsLow a c = rw (==_refl (pair_id s n)) (omega arith)

  pub rank_source_wait : rk (ident resource_type_wait_for_sync_event (pair_id s n)) ≡ 8
  unfolding rank
  rank_source_wait = rw (==_refl (pair_id s n))

  pub rank_origin : (id : Text) → rk (ident resource_type_replication_origin_advance id) ≡ 11
  unfolding rank
  rank_origin id = refl
