-- ===== src/Resource/Topo.antt =====
-- internal/resource/plan.go: `topoSort`, Kahn's algorithm in phases.
pub mod Edges
pub mod Degrees
pub mod Visit
pub mod Layers
pub mod Order
pub mod Build
pub mod Events
pub mod Phases
pub mod Sort
pub mod Dependencies
use pgedge_helm.Base.{
  ℕ, zero, suc, Key, Bool, List, [], ◌∷◌, ◌++◌, none, some, map, if◌then◌else◌, length,
}
use pgedge_helm.Base.Int.{ℤ, pos, increment, decrement, is_zero}
use pgedge_helm.Base.Maps.{Map, keys, lookup, contains, insert, erase}
use pgedge_helm.Resource.{Identifier, identifier_key, identifier_eq, Interface, Event}

-- `inDegree` and `dependents`, generic in their keys.
module _ {K : Type 0} ⦃key : Key K⦄ where
  -- A missing entry reads as zero.
  abbrev pub degree : K → Map K ℤ → ℤ
  degree k deg = elim (lookup k deg) [ none ↦ pos 0 | some d ↦ d ]

  abbrev pub bump : K → Map K ℤ → Map K ℤ
  bump k deg = insert k (increment (degree k deg)) deg

  abbrev pub drop_one : K → Map K ℤ → Map K ℤ
  drop_one k deg = insert k (decrement (degree k deg)) deg

  -- A missing entry reads as the empty slice.
  abbrev pub targets_of : K → Map K (List K) → List K
  targets_of k m = elim (lookup k m) [ none ↦ [] | some l ↦ l ]

  abbrev pub push : K → K → Map K (List K) → Map K (List K)
  push k v m = insert k (targets_of k m ++ v ∷ []) m

  -- The identifiers of degree zero, in the order of the map.
  pub ready : Map K ℤ → List K
  ready [] = []
  ready ((k, d) ∷ deg) = if is_zero d then k ∷ ready deg else ready deg

  pub drop_all : List K → Map K ℤ → Map K ℤ
  drop_all [] deg = deg
  drop_all (t ∷ ts) deg = drop_all ts (drop_one t deg)

  -- The loop over `ready`: each is deleted and its dependents lose one.
  pub visit : Map K (List K) → List K → Map K ℤ → Map K ℤ
  unfolding drop_all
  visit dependents [] deg = deg
  visit dependents (k ∷ ks) deg =
      visit dependents ks (drop_all (targets_of k dependents) (erase k deg))

  -- The loop `for len(inDegree) > 0`, as the identifiers of each phase. Each round deletes one
  -- entry at least, so that fuel of the number of entries is enough.
  pub layers : ℕ → Map K (List K) → Map K ℤ → List (List K)
  layers fuel dependents [] = []
  layers zero dependents (e ∷ deg) = []
  layers (suc fuel) dependents (e ∷ deg) = elim (ready (e ∷ deg)) [
    | [] ↦ keys (e ∷ deg) ∷ []
    | k ∷ ks ↦ (k ∷ ks) ∷ layers fuel dependents (visit dependents (k ∷ ks) (e ∷ deg))
  ]

module _ {R W : Type 0} (api : Interface R W) where
  open api use {identifier, dependencies}

  abbrev pub event_id : Event R → Identifier
  event_id e = identifier e.resource

  -- `eventSet`: a later event replaces an earlier one with its identifier.
  pub event_set : List (Event R) → Map Identifier (Event R) → Map Identifier (Event R)
  event_set [] m = m
  event_set (e ∷ es) m = event_set es (insert (event_id e) e m)

  pub zero_degrees : List (Event R) → Map Identifier ℤ → Map Identifier ℤ
  zero_degrees [] deg = deg
  zero_degrees (e ∷ es) deg = zero_degrees es (insert (event_id e) (pos 0) deg)

  abbrev pub Graph : Type 0
  Graph = Map Identifier ℤ × Map Identifier (List Identifier)

  pub link_one : Map Identifier (Event R) → Bool → Identifier → Identifier → Graph → Graph
  link_one set reverse id dep (deg, dependents) =
      if contains dep set
      then if reverse
        then (bump dep deg, push id dep dependents)
        else (bump id deg, push dep id dependents)
      else (deg, dependents)

  pub link_deps : Map Identifier (Event R) → Bool → Identifier → List Identifier → Graph → Graph
  unfolding link_one
  link_deps set reverse id [] g = g
  link_deps set reverse id (dep ∷ deps) g =
      link_deps set reverse id deps (link_one set reverse id dep g)

  pub link_events : Map Identifier (Event R) → Bool → List (Event R) → Graph → Graph
  unfolding link_deps
  link_events set reverse [] g = g
  link_events set reverse (e ∷ es) g =
      link_events set reverse es (link_deps set reverse (event_id e) (dependencies e.resource) g)

  -- `eventSet[id]` for the identifiers of a phase. All are keys of the set.
  pub events_at : Map Identifier (Event R) → List Identifier → List (Event R)
  events_at set [] = []
  events_at set (k ∷ ks) = elim (lookup k set) [
    | none ↦ events_at set ks
    | some e ↦ e ∷ events_at set ks
  ]

  unfoldable pub topo_sort : List (Event R) → Bool → List (List (Event R))
  unfolding event_set zero_degrees link_events ready visit layers events_at identifier_eq
  topo_sort events reverse =
      let set = event_set events [] in
      let (deg, dependents) = link_events set reverse events (zero_degrees events [], []) in
      map (events_at set) (layers (length deg) dependents deg)
