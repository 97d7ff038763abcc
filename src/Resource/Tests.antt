-- ===== src/Resource/Tests.antt =====
-- Runs of internal/resource on small plans.
use pgedge_helm.Base.{
  ℕ, ◌<◌, elem, All, All-elem, ◌≡◌, ◌↔◌, refl, true, false, List, [], ◌∷◌, Option, none, some, map,
  arith, Nodup, concat, if◌then◌else◌,
}
use pgedge_helm.Base.Text.{bytes, text_key, text_eq, byte_eq}
use pgedge_helm.Base.Maps.{Map}
use pgedge_helm.Resource.{
  Identifier, identifier_key, Interface, Status, Event, create, delete, Error, message,
  create_failed, phase_failed,
}
use pgedge_helm.Resource.Topo.{topo_sort, event_id}
use pgedge_helm.Resource.Topo.Events.{ids, last_with}
use pgedge_helm.Resource.Topo.Sort.{topo_sort-events}
use pgedge_helm.Resource.Topo.Dependencies.{
  DependenciesFirst, DependentsFirst, topo_sort-DependenciesFirst, topo_sort-DependentsFirst,
}
use pgedge_helm.Resource.Plan.{plan, buckets}
use pgedge_helm.Resource.Plan.Actions.{IsDifference, plan-IsDifference}
use pgedge_helm.Resource.Plan.Order.{IsInOrder, plan-IsInOrder}
use pgedge_helm.Resource.Plan.Converged.{IsConverged, plan-eq-nil_iff}
use pgedge_helm.Resource.Execute.{execute}
use pgedge_helm.Resource.Reconcile.{Reconciler, reconcile}
use pgedge_helm.Resource.Reconcile.Settled.{reconcile-IsConverged}
use pgedge_helm.Resource.Execute.Composition.{FailsAt, execute-FailsAt}

-- A resource with what it needs. The world is the log of the names that were created or deleted,
-- the last first.
record Item : Type 0 where
  name : ℕ
  needs : List ℕ
  state : Status

abbrev item_id : ℕ → Identifier
item_id n = record { type = bytes "item"; id = n ∷ [] }

-- Creation of item 9 fails.
abbrev make : Item → List ℕ → Option Error × List ℕ
make x log = if byte_eq x.name 9 then (some (message (bytes "no")), log) else (none, x.name ∷ log)

abbrev items : Interface Item (List ℕ)
items = record {
  identifier = λ x. item_id x.name;
  dependencies = λ x. map item_id x.needs;
  refresh = λ x cancelled log. (none, log);
  status = λ log x. x.state;
  create_resource = λ x cancelled log. make x log;
  update_resource = λ x cancelled log. (none, log);
  delete_resource = λ x cancelled log. (none, x.name ∷ log);
}

abbrev absent : Status
absent = record { exists = false; needs_recreate = false; needs_update = false; reason = [] }

abbrev lost : Status
lost = record { exists = true; needs_recreate = true; needs_update = false; reason = [] }

abbrev user : Item
user = record { name = 1; needs = []; state = absent }

abbrev node : Item
node = record { name = 2; needs = 1 ∷ []; state = absent }

abbrev sub : Item
sub = record { name = 3; needs = 2 ∷ 1 ∷ []; state = lost }

abbrev broken_item : Item
broken_item = record { name = 9; needs = []; state = absent }

abbrev creating : Item → Event Item
creating x = record { action = create; resource = x }

abbrev three : List (Event Item)
three = creating sub ∷ creating node ∷ creating user ∷ []

-- What is wanted, and what is there: the subscription, and one that nobody wants.
abbrev wanted : Map Identifier Item
wanted = (item_id 3, sub) ∷ (item_id 1, user) ∷ (item_id 2, node) ∷ []

abbrev orphan : Item
orphan = record { name = 4; needs = 3 ∷ []; state = absent }

abbrev there : Map Identifier Item
there = (item_id 3, sub) ∷ (item_id 4, orphan) ∷ []

topo_sort-three :
    topo_sort items three false
    ≡ (creating user ∷ []) ∷ (creating node ∷ []) ∷ (creating sub ∷ []) ∷ []
unfolding topo_sort text_eq
topo_sort-three = refl

abbrev rank : Identifier → ℕ
rank k = elim k.id [ [] ↦ 0 | n ∷ _ ↦ n ]

abbrev Below : Item → Type 0
Below x = All (λ d. rank d < x.name) (map item_id x.needs)

below :
    (x : Item) → Below x → (d : Identifier) → elem d (map item_id x.needs) ≡ true → rank d < x.name
below x h d m = All-elem (λ k. rank k < x.name) (map item_id x.needs) d h m

plan-there :
    plan items [] there wanted
    ≡ (record { action = delete; resource = orphan } ∷ [])
      ∷ (record { action = delete; resource = sub } ∷ [])
      ∷ (creating user ∷ [])
      ∷ (creating node ∷ [])
      ∷ (creating sub ∷ [])
      ∷ []
unfolding plan buckets topo_sort text_eq
plan-there = refl

topo_sort-events_example :
    ((k : Identifier)
      → elem k (ids items (concat (topo_sort items three true))) ≡ elem k (ids items three))
    × Nodup (ids items (concat (topo_sort items three true)))
    × All
        (λ e. last_with items (event_id items e) three ≡ some e)
        (concat (topo_sort items three true))
topo_sort-events_example = topo_sort-events items three true

topo_sort-DependenciesFirst_example : DependenciesFirst items (topo_sort items three false)
topo_sort-DependenciesFirst_example = topo_sort-DependenciesFirst items three rank (
  λ d m _. below sub (omega arith, (omega arith, tt)) d m,
  (λ d m _. below node (omega arith, tt) d m, (λ d m _. below user tt d m, tt)),
)

topo_sort-DependentsFirst_example : DependentsFirst items (topo_sort items three true)
topo_sort-DependentsFirst_example = topo_sort-DependentsFirst items three rank (
  λ d m _. below sub (omega arith, (omega arith, tt)) d m,
  (λ d m _. below node (omega arith, tt) d m, (λ d m _. below user tt d m, tt)),
)

plan-IsInOrder_example : IsInOrder items (plan items [] there wanted)
plan-IsInOrder_example =
    plan-IsInOrder items [] rank there wanted
      (below sub (omega arith, (omega arith, tt)), (below orphan (omega arith, tt), tt))
      (
        below sub (omega arith, (omega arith, tt)),
        (below user tt, (below node (omega arith, tt), tt)),
      )

plan-IsDifference_example : IsDifference items [] there wanted (plan items [] there wanted)
plan-IsDifference_example =
    plan-IsDifference items [] there wanted (refl, (refl, tt)) (refl, (refl, (refl, tt)))

plan-eq-nil_iff_example : (plan items [] there wanted ≡ []) ↔ IsConverged items [] there wanted
plan-eq-nil_iff_example =
    plan-eq-nil_iff items [] there wanted (refl, (refl, tt)) (refl, (refl, (refl, tt)))

abbrev failing : List (List (Event Item))
failing =
    (creating user ∷ [])
    ∷ (creating node ∷ creating broken_item ∷ creating sub ∷ [])
    ∷ (creating sub ∷ [])
    ∷ []

abbrev failure : Error
failure = create_failed (item_id 9) (message (bytes "no"))

execute_failing : execute items failing [] ≡ (some (phase_failed 1 failure), 3 ∷ 2 ∷ 1 ∷ [])
unfolding execute
execute_failing = refl

execute-FailsAt_example : FailsAt items 0 failing [] (3 ∷ 2 ∷ 1 ∷ []) (phase_failed 1 failure)
execute-FailsAt_example =
    execute-FailsAt items failing [] (3 ∷ 2 ∷ 1 ∷ []) (phase_failed 1 failure) execute_failing

-- A reconciler that wants one item and finds it.
abbrev settled_item : Item
settled_item = record { name = 1; needs = []; state = record absent { exists = true } }

abbrev settled : Reconciler Item (List ℕ)
settled = record {
  compute_desired = λ log. ((item_id 1, settled_item) ∷ [], log);
  refresh_actual = λ desired log. (none, desired, log);
}

settled-IsConverged :
    IsConverged items [] ((item_id 1, settled_item) ∷ []) ((item_id 1, settled_item) ∷ [])
settled-IsConverged k = (refl, ground arith, ground arith)

reconcile-IsConverged_example : reconcile items settled [] ≡ (none, [])
reconcile-IsConverged_example =
    reconcile-IsConverged items settled [] [] [] ((item_id 1, settled_item) ∷ [])
      ((item_id 1, settled_item) ∷ []) refl refl (refl, tt) (refl, tt) settled-IsConverged
