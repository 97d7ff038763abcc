-- ===== src/Spock/Methods.antt =====
-- internal/spock: the methods `Refresh` of the types that implement `resource.Resource`.
use pgedge_helm.Base.{Bool, true, false, ◌++◌, Option, none, some}
use pgedge_helm.Base.Text.{Text, bytes}
use pgedge_helm.Resource.{Status, Error, context}
use pgedge_helm.Spock.Types.{Conn, Address}
use pgedge_helm.Spock.User.{PgEdgeUser}
use pgedge_helm.Spock.SpockNode.{SpockNode}
use pgedge_helm.Spock.ReplicationSlot
use pgedge_helm.Spock.ReplicationSlot.{ReplicationSlot}
use pgedge_helm.Spock.Subscription
use pgedge_helm.Spock.Subscription.{Subscription}
use pgedge_helm.Spock.Object.{
  Body, user, node, slot, subscription, slot_create, disabled_subscription, sync_event,
  wait_for_sync_event, peer_catchup, lag_tracker, slot_advance, origin_advance,
}
use pgedge_helm.Spock.World.{
  answer, failure, Driver, Query, role_exists, local_node_exists, slot_exists, sub_exists,
  sub_enabled, World, set_status, no_status, to_error,
}

module _ {D : Type 0} (driver : Driver D) where
  abbrev pub with_status : Address → Status → World D → World D
  with_status a s w = record w { status = set_status a s w.status }

  abbrev pub existing : Bool → Status
  existing b = record no_status { exists = b }

  -- `conn.QueryRow(...).Scan(&b)`, and what follows with the error or the value.
  abbrev pub ask :
      Conn
      → Query
      → Text
      → (Bool → World D → Option Error × World D)
      → World D
      → Option Error × World D
  ask c q what k w =
      let (result, d) = driver.query_bool c q w.databases in
      let w' = record w { databases = d } in
      elim result [ failure e ↦ (some (context what (to_error e)), w') | answer b ↦ k b w' ]

  unfoldable pub refresh_user : Address → PgEdgeUser → World D → Option Error × World D
  refresh_user a u =
      ask u.conn (role_exists u.pgedge_user) (bytes "inspect pgedge user on " ++ u.node.name)
        (λ b w. (none, with_status a (existing b) w))

  unfoldable pub refresh_node : Address → SpockNode → World D → Option Error × World D
  refresh_node a n =
      ask n.conn (local_node_exists n.node.name) (bytes "inspect spock node on " ++ n.node.name)
        (λ b w. (none, with_status a (existing b) w))

  unfoldable pub refresh_slot : Address → ReplicationSlot → World D → Option Error × World D
  refresh_slot a r =
      ask r.conn (slot_exists (ReplicationSlot.slot_name r))
        (bytes "check replication slot " ++ ReplicationSlot.slot_name r)
        (λ b w. (none, with_status a (existing b) w))

  abbrev pub disabled_status : Status
  disabled_status = record {
    exists = true;
    needs_recreate = false;
    needs_update = true;
    reason = bytes "subscription is disabled";
  }

  abbrev pub enabled_status : Bool → Status
  enabled_status true = existing true
  enabled_status false = disabled_status

  abbrev pub check_enabled : Address → Subscription → Bool → World D → Option Error × World D
  check_enabled a s false w = (none, with_status a no_status w)
  check_enabled a s true w =
      ask s.conn (sub_enabled (Subscription.sub_name s))
        (bytes "check subscription enabled " ++ Subscription.sub_name s)
        (λ b v. (none, with_status a (enabled_status b) v)) w

  unfoldable pub refresh_subscription : Address → Subscription → World D → Option Error × World D
  refresh_subscription a s =
      ask s.conn (sub_exists (Subscription.sub_name s))
        (bytes "inspect subscription " ++ Subscription.sub_name s) (check_enabled a s)

  -- `Refresh` of the resources of a populate run: they never exist.
  unfoldable pub refresh_ephemeral : Address → World D → Option Error × World D
  refresh_ephemeral a w = (none, with_status a no_status w)

  unfoldable pub refresh_body : Address → Body → World D → Option Error × World D
  unfolding refresh_user refresh_node refresh_slot refresh_subscription refresh_ephemeral
  refresh_body a (user u) = refresh_user a u
  refresh_body a (node n) = refresh_node a n
  refresh_body a (slot r) = refresh_slot a r
  refresh_body a (subscription s) = refresh_subscription a s
  refresh_body a (slot_create _) = refresh_ephemeral a
  refresh_body a (disabled_subscription _) = refresh_ephemeral a
  refresh_body a (sync_event _) = refresh_ephemeral a
  refresh_body a (wait_for_sync_event _) = refresh_ephemeral a
  refresh_body a (peer_catchup _) = refresh_ephemeral a
  refresh_body a (lag_tracker _) = refresh_ephemeral a
  refresh_body a (slot_advance _) = refresh_ephemeral a
  refresh_body a (origin_advance _) = refresh_ephemeral a
