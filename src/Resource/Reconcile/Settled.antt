-- ===== src/Resource/Reconcile/Settled.antt =====
-- `Reconcile` (internal/resource/reconciler.go) where there is nothing to do, and where there is.
use pgedge_helm.Base.{◌≡◌, refl, none, [], arith}
use pgedge_helm.Base.Maps.{Map}
use pgedge_helm.Resource.{Identifier, Interface}
use pgedge_helm.Resource.Plan.Slices.{IsKeyed}
use pgedge_helm.Resource.Plan.Converged.{IsConverged, plan-eq-nil_iff}
use pgedge_helm.Resource.Execute.{execute}
use pgedge_helm.Resource.Reconcile.{Reconciler, reconcile}

module _ {R W : Type 0} (api : Interface R W) (r : Reconciler R W) where
  execute_nil : (w : W) → execute api [] w ≡ (none, w)
  unfolding execute
  execute_nil w = refl

  -- A run of `Reconcile` whose refresh succeeds and finds what is wanted, with every resource
  -- under its identifier, succeeds and leaves the state as the refresh left it.
  pub reconcile-IsConverged :
      (w0 w1 w2 : W) (desired actual : Map Identifier R)
      → r.compute_desired w0 ≡ (desired, w1)
      → r.refresh_actual desired w1 ≡ (none, actual, w2)
      → IsKeyed api w2 actual
      → IsKeyed api w2 desired
      → IsConverged api w2 actual desired
      → reconcile api r w0 ≡ (none, w2)
  unfolding reconcile execute
  reconcile-IsConverged w0 w1 w2 desired actual computed refreshed ka kd h =
      ground (arith, (plan-eq-nil_iff api w2 actual desired ka kd).1 h, execute_nil w2)
