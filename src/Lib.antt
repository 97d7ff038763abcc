-- ===== src/Lib.antt =====
-- pgedge_helm: the `init-spock` job of this chart, which makes a set of PostgreSQL clusters replicate
-- to each other with Spock. The job reads its configuration, computes the resources that should
-- exist (roles, Spock nodes, slots, subscriptions, and the steps that fill a new node), looks which
-- exist, plans the difference and executes it in phases.
--
-- Which file models what:
--   Base: native numbers and lists, equality (`Key`), Go maps as association lists (Base/Maps), texts
--   as lists of bytes (Base/Text), Go integers (Base/Int), their decimal texts (Base/Decimal),
--   `sort.Strings` (Base/Sorting).
--   Config: internal/config/config.go, `LoadNodes` and `Load`. The environment, the file system and
--   the YAML parser are the parameter `Surroundings`.
--   Io: calls of the outside that fail, and contexts with a deadline.
--   Readiness: internal/cluster/cluster.go. The Kubernetes client is the parameter `Kubernetes`.
--   Connections: internal/pg/pg.go. crypto/tls and pgx are the parameter `Pgx`.
--   Job: `run` of cmd/init-spock/main.go, which calls all the other parts over one state of what is
--   outside, the record `Outside`. Job/Timeout is its `INIT_SPOCK_TIMEOUT`.
--   Resource: internal/resource/resource.go. The Go interface `Resource` is the record `Interface`, over
--   references `R` to the objects and a world `W` of what their methods read and write.
--   Resource/Plan: `Plan` of internal/resource/plan.go, its three slices as `Buckets`.
--   Resource/Topo: `topoSort` of internal/resource/plan.go. `layers` is its loop over the in-degrees,
--   `visit` one round of it.
--   Resource/Execute: `Execute` of internal/resource/executor.go.
--   Resource/Reconcile: `Reconcile` of internal/resource/reconciler.go.
--   Spock/Names: internal/spock/names.go. Spock/Types: the type names of internal/spock/desired.go.
--   Spock/User, SpockNode, ReplicationSlot, Subscription, ReplicationSlotCreate, DisabledSubscription,
--   SyncEvent, WaitForSyncEvent, PeerCatchup, LagTracker, SlotAdvance, OriginAdvance: the struct, the
--   constructor, `Identifier` and `Dependencies` of the file of internal/spock with that type.
--   Spock/Object is the sum of the twelve, an object being a body at an address.
--   Spock/Desired: `ComputeDesired` and `addPopulateResources` of internal/spock/desired.go.
--   Spock/World: the world of these objects, their statuses by address and the databases, behind a
--   `Driver` that answers the queries of the source.
--   Spock/Methods: the methods `Refresh` of the twelve types.
--   Spock/Flow: sequences of driver calls with early returns, transactions with a deferred rollback.
--   Spock/Changes, Spock/Advance, Spock/Waiting: the methods `Create`, `Update` and `Delete`. Changes has
--   roles, nodes, slots and subscriptions, Advance the steps that hand an LSN or a timestamp on through
--   their objects, Waiting the two that poll. Spock/Reconcile collects them as an `Interface`.
--   Spock/Databases: what the statements and queries of internal/spock mean, as PostgreSQL and Spock
--   document it, as hypotheses on the driver (`IsDatabase`), and what `Create` and `Delete` leave there.
--   Spock/Refresh: internal/spock/refresh.go. Spock/Repset: internal/spock/repset.go. Spock/Reset:
--   internal/spock/reset.go.
--
-- Choices:
--   The order in which Go walks a map is the order of the association list. The theorems hold for
--   every list, so for every order.
--   `layers` runs on fuel, one unit for each entry of the in-degrees. That is enough, since every round
--   deletes an entry (Resource/Topo/Layers proves it).
--   The loops that poll run on fuel too, and are `none` without: they end when the databases or the
--   context say so, and Spock/Waiting/Polls, Readiness/Ends and Connections/Ends have the fuel that is
--   enough. In `run` the loops of step 4 without fuel left end with the error "still waiting".
--   A decrement of a missing in-degree makes an entry, as in Go; integers have no bound here.
--   The goroutines of a phase run one after another, in the order of the slice, and each method is one
--   step; Resource/Execute/Schedules has the other orders, not the steps of two methods in turn. The
--   context of a phase is a flag, which the first error sets. The loops that poll read it; other calls
--   of the driver do not get it.
--   `ComputeDesired` walks the new nodes in the order of their insertion. The statement that advances a
--   slot is one call without a result: its CASE, which may leave the slot where it is, is in the database.
--   A connection is a handle. A nil pool is none; what a query does on it is up to the driver. The
--   statements of the source are constructors with their arguments. In the error of an unhealthy
--   status the status is not quoted.
--   A `select` between the end of a context and a timer is one call, which takes the time or less;
--   behind it the context is asked whether it has ended.
--   Deferred calls run behind the body in reverse order: `pool.Close()`, then `cancel()`.
--   Logging is left out.
--
-- Not modelled: the handling of signals in `main` of cmd/init-spock (which ends the context), and the
-- chart's templates.
pub mod Base
pub mod Config
pub mod Resource
pub mod Spock
pub mod Connections
pub mod Io
pub mod Job
pub mod Readiness
