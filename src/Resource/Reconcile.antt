-- ===== src/Resource/Reconcile.antt =====
-- internal/resource/reconciler.go: `Reconciler` and `Reconcile`.
pub mod Settled
use pgedge_helm.Base.{Option, none, some}
use pgedge_helm.Base.Maps.{Map}
use pgedge_helm.Resource.{Identifier, Interface, Error}
use pgedge_helm.Resource.Plan.{plan}
use pgedge_helm.Resource.Execute.{execute}

-- The interface `Reconciler`. `compute_desired` makes objects in the world.
pub record Reconciler (R W : Type 0) : Type 0 where
  pub compute_desired : W → Map Identifier R × W
  pub refresh_actual : Map Identifier R → W → Option Error × Map Identifier R × W

unfoldable pub reconcile : {R W : Type 0} → Interface R W → Reconciler R W → W → Option Error × W
reconcile api r w0 =
    let (desired, w1) = r.compute_desired w0 in
    let (result, actual, w2) = r.refresh_actual desired w1 in
    let (done, w3) = execute api (plan api w2 actual desired) w2 in
    elim result [ none ↦ (done, w3) | some e ↦ (some e, w2) ]
