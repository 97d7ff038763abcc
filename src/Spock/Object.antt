-- ===== src/Spock/Object.antt =====
-- internal/spock: the types that implement `resource.Resource`, and the methods by their type.
use pgedge_helm.Base.{List}
use pgedge_helm.Resource.{Identifier}
use pgedge_helm.Spock.Types.{Address}
use pgedge_helm.Spock.User
use pgedge_helm.Spock.User.{PgEdgeUser}
use pgedge_helm.Spock.SpockNode
use pgedge_helm.Spock.SpockNode.{SpockNode}
use pgedge_helm.Spock.ReplicationSlot
use pgedge_helm.Spock.ReplicationSlot.{ReplicationSlot}
use pgedge_helm.Spock.Subscription
use pgedge_helm.Spock.Subscription.{Subscription}
use pgedge_helm.Spock.ReplicationSlotCreate
use pgedge_helm.Spock.ReplicationSlotCreate.{ReplicationSlotCreate}
use pgedge_helm.Spock.DisabledSubscription
use pgedge_helm.Spock.DisabledSubscription.{DisabledSubscription}
use pgedge_helm.Spock.SyncEvent
use pgedge_helm.Spock.SyncEvent.{SyncEvent}
use pgedge_helm.Spock.WaitForSyncEvent
use pgedge_helm.Spock.WaitForSyncEvent.{WaitForSyncEvent}
use pgedge_helm.Spock.PeerCatchup
use pgedge_helm.Spock.PeerCatchup.{PeerCatchup}
use pgedge_helm.Spock.LagTracker
use pgedge_helm.Spock.LagTracker.{LagTrackerCommitTimestamp}
use pgedge_helm.Spock.SlotAdvance
use pgedge_helm.Spock.SlotAdvance.{ReplicationSlotAdvanceFromCts}
use pgedge_helm.Spock.OriginAdvance
use pgedge_helm.Spock.OriginAdvance.{ReplicationOriginAdvance}

-- What a `resource.Resource` of this package points to, but for the fields that change.
pub data Body : Type 0 where
  user : PgEdgeUser → Body
  node : SpockNode → Body
  slot : ReplicationSlot → Body
  subscription : Subscription → Body
  slot_create : ReplicationSlotCreate → Body
  disabled_subscription : DisabledSubscription → Body
  sync_event : SyncEvent → Body
  wait_for_sync_event : WaitForSyncEvent → Body
  peer_catchup : PeerCatchup → Body
  lag_tracker : LagTrackerCommitTimestamp → Body
  slot_advance : ReplicationSlotAdvanceFromCts → Body
  origin_advance : ReplicationOriginAdvance → Body

-- A pointer to an object.
pub record Object : Type 0 where
  pub address : Address
  pub body : Body

unfoldable pub body_identifier : Body → Identifier
unfolding User.identifier SpockNode.identifier ReplicationSlot.identifier Subscription.identifier
    ReplicationSlotCreate.identifier DisabledSubscription.identifier SyncEvent.identifier
    WaitForSyncEvent.identifier PeerCatchup.identifier LagTracker.identifier SlotAdvance.identifier
    OriginAdvance.identifier
body_identifier (user r) = User.identifier r
body_identifier (node r) = SpockNode.identifier r
body_identifier (slot r) = ReplicationSlot.identifier r
body_identifier (subscription r) = Subscription.identifier r
body_identifier (slot_create r) = ReplicationSlotCreate.identifier r
body_identifier (disabled_subscription r) = DisabledSubscription.identifier r
body_identifier (sync_event r) = SyncEvent.identifier r
body_identifier (wait_for_sync_event r) = WaitForSyncEvent.identifier r
body_identifier (peer_catchup r) = PeerCatchup.identifier r
body_identifier (lag_tracker r) = LagTracker.identifier r
body_identifier (slot_advance r) = SlotAdvance.identifier r
body_identifier (origin_advance r) = OriginAdvance.identifier r

unfoldable pub body_dependencies : Body → List Identifier
unfolding User.dependencies SpockNode.dependencies ReplicationSlot.dependencies
    Subscription.dependencies ReplicationSlotCreate.dependencies DisabledSubscription.dependencies
    SyncEvent.dependencies WaitForSyncEvent.dependencies PeerCatchup.dependencies
    LagTracker.dependencies SlotAdvance.dependencies OriginAdvance.dependencies
body_dependencies (user r) = User.dependencies r
body_dependencies (node r) = SpockNode.dependencies r
body_dependencies (slot r) = ReplicationSlot.dependencies r
body_dependencies (subscription r) = Subscription.dependencies r
body_dependencies (slot_create r) = ReplicationSlotCreate.dependencies r
body_dependencies (disabled_subscription r) = DisabledSubscription.dependencies r
body_dependencies (sync_event r) = SyncEvent.dependencies r
body_dependencies (wait_for_sync_event r) = WaitForSyncEvent.dependencies r
body_dependencies (peer_catchup r) = PeerCatchup.dependencies r
body_dependencies (lag_tracker r) = LagTracker.dependencies r
body_dependencies (slot_advance r) = SlotAdvance.dependencies r
body_dependencies (origin_advance r) = OriginAdvance.dependencies r
