-- ===== src/Spock.antt =====
-- internal/spock: the resources that make up the replication, and the graph of them that is wanted.
mod Tests
pub mod Names
pub mod Types
pub mod User
pub mod SpockNode
pub mod ReplicationSlot
pub mod Subscription
pub mod ReplicationSlotCreate
pub mod DisabledSubscription
pub mod SyncEvent
pub mod WaitForSyncEvent
pub mod PeerCatchup
pub mod LagTracker
pub mod SlotAdvance
pub mod OriginAdvance
pub mod Object
pub mod Desired
pub mod World
pub mod Flow
pub mod Methods
pub mod Changes
pub mod Advance
pub mod Waiting
pub mod Repset
pub mod Reset
pub mod Reconcile
pub mod Databases
pub mod Refresh
