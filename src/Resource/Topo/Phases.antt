-- ===== src/Resource/Topo/Phases.antt =====
-- The phases of `topoSort` (internal/resource/plan.go) come of its graph of events.
use pgedge_helm.Base.{
  ==_refl, elem, All, All-map, ◌≡◌, sym, ◌∙◌, subst, Bool, true, false, List, [], ◌∷◌, arith,
  length, map,
}
use mathlib.Core.Bool.{false≢true}
use native.Mathlib.Nat.{le_refl}
use pgedge_helm.Base.Maps.{Map, keys, contains, contains-eq-elem}
use pgedge_helm.Resource.{Identifier, identifier_key, Interface, Event}
use pgedge_helm.Resource.Topo.{
  event_id, event_set, zero_degrees, Graph, events_at, layers, topo_sort,
}
use pgedge_helm.Resource.Topo.Edges.{Edges}
use pgedge_helm.Resource.Topo.Build.{
  add_edges, keys-add_edges, targets_of-add_edges, add_edges-IsGood,
}
use pgedge_helm.Resource.Topo.Layers.{Layers, layers-Layers}
use pgedge_helm.Resource.Topo.Events.{
  ids, edge, edges, link_events-add_edges, elem-keys-event_set, elem-keys-zero_degrees,
  zero_degrees-Nodup, lookup-zero_degrees, edges_sound,
}

module _ {R W : Type 0} (api : Interface R W) where
  open api use {identifier, dependencies}

  pub elem-ids-cons :
      (es : List (Event R)) (all : List (Event R))
      → ((j : Identifier) → elem j (ids api es) ≡ true → elem j (ids api all) ≡ true)
      → All (λ e. elem (event_id api e) (ids api all) ≡ true) es
  elem-ids-cons [] all h = tt
  elem-ids-cons (e ∷ es) all h = (
    h (event_id api e) (ground (arith, ==_refl (event_id api e))),
    elem-ids-cons es all (λ j m. h j (ground arith)),
  )

  module _ (events : List (Event R)) where
    abbrev pub set : Map Identifier (Event R)
    set = event_set api events []

    abbrev pub start : Graph api
    start = (zero_degrees api events [], [])

    pub contains-set : (k : Identifier) → contains k set ≡ elem k (ids api events)
    contains-set k = contains-eq-elem k set ∙ elem-keys-event_set api k events []

    pub elem-start : (k : Identifier) → elem k (keys start.0) ≡ elem k (ids api events)
    elem-start k = elem-keys-zero_degrees api k events []

    module _ (reverse : Bool) where
      abbrev pub graph : Edges Identifier
      graph = edges api set reverse events

      abbrev Known : Identifier → Identifier → Type 0
      Known s t = (elem s (keys start.0) ≡ true) × (elem t (keys start.0) ≡ true)

      Known-edge :
          (b : Bool) (s t : Identifier) → Known s t → Known (edge api b s t).0 (edge api b s t).1
      Known-edge true s t h = h
      Known-edge false s t h = (h.1, h.0)

      graph-Known : All (λ e. Known e.0 e.1) graph
      graph-Known = edges_sound api Known set reverse events (
          All-map
            (λ e m dep _ c.
              Known-edge reverse (event_id api e) dep
                (elem-start (event_id api e) ∙ m, elem-start dep ∙ sym (contains-set dep) ∙ c))
            events (elem-ids-cons events events (λ j m. m)))

      ends : All (λ e. elem e.1 (keys start.0) ≡ true) graph
      ends = All-map (λ e h. h.1) graph graph-Known

      -- The phases before the events are looked up.
      abbrev pub phases : List (List Identifier)
      phases = let (deg, dependents) = add_edges graph start in layers (length deg) dependents deg

      pub topo_sort-phases : topo_sort api events reverse ≡ map (events_at api set) phases
      unfolding topo_sort
      topo_sort-phases = rw (link_events-add_edges api set reverse events start)

      pub phases-Layers : Layers graph (keys start.0) phases
      phases-Layers =
          subst (λ w. Layers graph w phases) (keys-add_edges graph start ends)
            (layers-Layers graph (add_edges graph start).1 (λ s. targets_of-add_edges s graph start)
              (length (add_edges graph start).0) (add_edges graph start).0 (le_refl _)
              (add_edges-IsGood graph start (zero_degrees-Nodup api events [] tt)
                (lookup-zero_degrees api events [] (λ k m. absurd (false≢true m)))
                (All-map (λ e h. h.0) graph graph-Known) ends))
