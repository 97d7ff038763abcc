-- ===== src/Spock/Reconcile.antt =====
-- internal/spock/reconciler.go: `SpockReconciler`, and the twelve types as `resource.Resource`.
pub mod Ordered
mod Tests
use pgedge_helm.Base.{ℕ, Bool, List, Option, none, some}
use pgedge_helm.Base.Text.{bytes}
use pgedge_helm.Base.Maps.{Map}
use pgedge_helm.Config.{Config}
use pgedge_helm.Resource.{Identifier, Interface, Error, message}
use pgedge_helm.Resource.Reconcile.{Reconciler}
use pgedge_helm.Spock.Types.{Address}
use pgedge_helm.Spock.Object.{
  Body, user, node, slot, subscription, slot_create, disabled_subscription, sync_event,
  wait_for_sync_event, peer_catchup, lag_tracker, slot_advance, origin_advance, Object,
  body_identifier, body_dependencies,
}
use pgedge_helm.Spock.Desired.{Conns, compute_desired}
use pgedge_helm.Spock.World.{Driver, World}
use pgedge_helm.Spock.Methods.{refresh_body}
use pgedge_helm.Spock.Refresh.{refresh_actual}
use pgedge_helm.Spock.Changes.{
  create_user, create_node, delete_node, delete_slot, create_replication_slot, create_subscription,
  update_subscription, delete_subscription, create_disabled_subscription,
}
use pgedge_helm.Spock.Advance.{
  create_sync_event, create_lag_tracker, create_slot_advance, create_origin_advance,
}
use pgedge_helm.Spock.Waiting.{create_peer_catchup, create_wait_for_sync_event}

module _ {D : Type 0} (driver : Driver D) where
  -- A loop without fuel left stands for one that still runs.
  abbrev pub still_waiting : Error
  still_waiting = message (bytes "still waiting")

  abbrev pub ended : World D → Option (Option Error × World D) → Option Error × World D
  ended w none = (some still_waiting, w)
  ended w (some r) = r

  -- `Create`, by type, with fuel for the loops.
  unfoldable pub create_body : ℕ → Address → Body → Bool → World D → Option Error × World D
  create_body fuel a (user u) cancelled w = create_user driver u w
  create_body fuel a (node n) cancelled w = create_node driver n w
  create_body fuel a (slot _) cancelled w = (none, w)
  create_body fuel a (subscription s) cancelled w = create_subscription driver s w
  create_body fuel a (slot_create r) cancelled w = create_replication_slot driver r w
  create_body fuel a (disabled_subscription s) cancelled w = create_disabled_subscription driver s w
  create_body fuel a (sync_event r) cancelled w = create_sync_event driver a r w
  create_body fuel a (wait_for_sync_event r) cancelled w =
      ended w (create_wait_for_sync_event driver cancelled fuel r w)
  create_body fuel a (peer_catchup r) cancelled w =
      ended w (create_peer_catchup driver cancelled fuel r w)
  create_body fuel a (lag_tracker r) cancelled w = create_lag_tracker driver a r w
  create_body fuel a (slot_advance r) cancelled w = create_slot_advance driver a r w
  create_body fuel a (origin_advance r) cancelled w = create_origin_advance driver r w

  -- `Update`, which is a no-op but for subscriptions.
  unfoldable pub update_body : Body → World D → Option Error × World D
  update_body (subscription s) w = update_subscription driver s w
  update_body _ w = (none, w)

  -- `Delete`, which is a no-op but for nodes, slots and subscriptions.
  unfoldable pub delete_body : Body → World D → Option Error × World D
  delete_body (node n) w = delete_node driver n w
  delete_body (slot r) w = delete_slot driver r w
  delete_body (subscription s) w = delete_subscription driver s w
  delete_body _ w = (none, w)

  abbrev pub spock_api : ℕ → Interface Object (World D)
  spock_api fuel = record {
    identifier = λ o. body_identifier o.body;
    dependencies = λ o. body_dependencies o.body;
    refresh = λ o cancelled w. refresh_body driver o.address o.body w;
    status = λ w o. w.status o.address;
    create_resource = λ o cancelled w. create_body fuel o.address o.body cancelled w;
    update_resource = λ o cancelled w. update_body o.body w;
    delete_resource = λ o cancelled w. delete_body o.body w;
  }

  abbrev pub spock_reconciler : Config → Conns → Reconciler Object (World D)
  spock_reconciler cfg conns = record {
    compute_desired =
        λ w. let b = compute_desired cfg conns w.next in (b.resources, record w { next = b.next });
    refresh_actual = λ desired w. refresh_actual driver cfg conns desired w;
  }
