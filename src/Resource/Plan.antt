-- ===== src/Resource/Plan.antt =====
-- internal/resource/plan.go: `Plan`, the difference between the actual and the desired resources.
pub mod Slices
pub mod Actions
pub mod Order
pub mod Converged
use pgedge_helm.Base.{Bool, ◌&&◌, List, [], ◌∷◌, ◌++◌, if◌then◌else◌}
use pgedge_helm.Base.Maps.{Map, contains}
use pgedge_helm.Resource.{
  Identifier, identifier_key, identifier_eq, Interface, Status, Event, Action, create, update,
  delete,
}
use pgedge_helm.Resource.Topo.{topo_sort}

-- The three slices of events.
pub record Buckets (R : Type 0) : Type 0 where
  pub deletes : List (Event R)
  pub creates : List (Event R)
  pub updates : List (Event R)

abbrev pub no_events : {R : Type 0} → Buckets R
no_events = record { deletes = []; creates = []; updates = [] }

module _ {R W : Type 0} (api : Interface R W) (w : W) where
  abbrev pub event : Action → R → Event R
  event a r = record { action = a; resource = r }

  -- The body of the loop over `actual`.
  abbrev pub drop_unwanted : Map Identifier R → Identifier → R → Buckets R → Buckets R
  drop_unwanted desired id r b =
      if contains id desired then b else record b { deletes = b.deletes ++ event delete r ∷ [] }

  pub plan_actual : Map Identifier R → Map Identifier R → Buckets R → Buckets R
  plan_actual desired [] b = b
  plan_actual desired ((id, r) ∷ m) b = plan_actual desired m (drop_unwanted desired id r b)

  abbrev pub mend : R → Status → Buckets R → Buckets R
  mend r s b =
      if s.exists && s.needs_recreate
      then record b {
        deletes = b.deletes ++ event delete r ∷ [];
        creates = b.creates ++ event create r ∷ [];
      }
      else if s.exists && s.needs_update
      then record b { updates = b.updates ++ event update r ∷ [] }
      else b

  -- The body of the loop over `desired`.
  abbrev pub classify : Map Identifier R → Identifier → R → Buckets R → Buckets R
  classify actual id r b =
      if contains id actual
      then mend r (api.status w r) b
      else record b { creates = b.creates ++ event create r ∷ [] }

  pub plan_desired : Map Identifier R → Map Identifier R → Buckets R → Buckets R
  plan_desired actual [] b = b
  plan_desired actual ((id, r) ∷ m) b = plan_desired actual m (classify actual id r b)

  unfoldable pub buckets : Map Identifier R → Map Identifier R → Buckets R
  unfolding plan_actual plan_desired
  buckets actual desired = plan_desired actual desired (plan_actual desired actual no_events)

  -- `if len(events) > 0 { phases = append(phases, topoSort(events, reverse)...) }`
  abbrev pub sorted : List (Event R) → Bool → List (List (Event R))
  sorted [] reverse = []
  sorted (e ∷ es) reverse = topo_sort api (e ∷ es) reverse

  unfoldable pub plan : Map Identifier R → Map Identifier R → List (List (Event R))
  plan actual desired =
      let b = buckets actual desired in
      sorted b.deletes Bool.true ++ (sorted b.updates Bool.false ++ sorted b.creates Bool.false)
