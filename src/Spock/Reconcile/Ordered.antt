-- ===== src/Spock/Reconcile/Ordered.antt =====
-- Every plan of the job is in order: `Plan` (internal/resource/plan.go) on what `ComputeDesired` and
-- `RefreshActual` (internal/spock) return.
use pgedge_helm.Base.{Bool, ℕ, ◌<◌, [], List, All, All-map, All-elem, arith}
use pgedge_helm.Base.Text.{Text}
use pgedge_helm.Base.Maps.{Map}
use pgedge_helm.Config.{Config}
use pgedge_helm.Resource.{Identifier, identifier_key}
use pgedge_helm.Resource.Plan.{plan}
use pgedge_helm.Resource.Plan.Order.{IsInOrder, Descends, plan-IsInOrder}
use pgedge_helm.Spock.Types.{Address}
use pgedge_helm.Spock.Object.{Object, body_identifier, body_dependencies}
use pgedge_helm.Spock.Desired.{Conns, compute_desired}
use pgedge_helm.Spock.Desired.Rank.{IsUnambiguous, rank}
use pgedge_helm.Spock.Desired.Bodies.{IsLow, node-IsLow, subscription-IsLow}
use pgedge_helm.Spock.Desired.Filling.{node_names}
use pgedge_helm.Spock.Desired.Acyclic.{FillsAtMostOne, compute_desired-AllRanked}
use pgedge_helm.Spock.World.{Driver, World}
use pgedge_helm.Spock.Refresh.{orphan_config, refresh_actual}
use pgedge_helm.Spock.Refresh.Origins.{HoldsOfOrphans, refresh_actual-All}
use pgedge_helm.Spock.Reconcile.{spock_api}

orphans-IsLow :
    (cfg : Config) (names : List Text) (n s : Text) → HoldsOfOrphans (IsLow names n s) cfg
unfolding body_dependencies body_identifier rank
orphans-IsLow cfg names n s = record {
  of_node = λ name c. node-IsLow names n s (orphan_config name) cfg.db_name cfg.pgedge_user c;
  of_subscription = λ name survivor c.
      subscription-IsLow names n s (orphan_config name) survivor cfg.db_name cfg.pgedge_user
        Bool.false c [] tt;
  of_slot = λ c survivor name. omega arith;
}

module _ {D : Type 0} (driver : Driver D) (fuel : ℕ) where
  All-Descends :
      (names : List Text) (n s : Text) (m : Map Identifier Object)
      → All (λ e. IsLow names n s e.1.body) m
      → All (λ e. Descends (spock_api driver fuel) (rank names n s) e.1) m
  All-Descends names n s m low =
      All-map
        (λ e l d dep.
          All-elem (λ x. rank names n s x < rank names n s (body_identifier e.1.body))
            (body_dependencies e.1.body) d l dep)
        m low

  -- What the job executes is in order, where no names collide and at most one node is filled: for
  -- every state of the databases, the plan from the resources that `RefreshActual` finds, orphans
  -- included, to those that `ComputeDesired` wants, first deletes dependents before what they depend
  -- on, and then updates and creates resources behind what they depend on.
  pub reconcile-IsInOrder :
      (cfg : Config) (conns : Conns) (next : Address) (w v : World D)
      → IsUnambiguous (node_names cfg)
      → FillsAtMostOne cfg
      → IsInOrder (spock_api driver fuel) (
          plan
            (spock_api driver fuel)
            v
            (refresh_actual driver cfg conns (compute_desired cfg conns next).resources w).1
            (compute_desired cfg conns next).resources)
  reconcile-IsInOrder cfg conns next w v h fills =
      let a = compute_desired-AllRanked cfg conns next h fills in
      let desired = (compute_desired cfg conns next).resources in
      let names = node_names cfg in
      plan-IsInOrder (spock_api driver fuel) v (rank names a.filled a.source)
        (refresh_actual driver cfg conns desired w).1 desired
        (All-Descends names a.filled a.source _ (
          refresh_actual-All driver (IsLow names a.filled a.source) cfg conns
            (orphans-IsLow cfg names a.filled a.source) desired w a.low))
        (All-Descends names a.filled a.source desired a.low)
