-- ===== src/Resource/Topo/Dependencies.antt =====
-- `topoSort` (internal/resource/plan.go) puts dependencies into earlier phases, and in reverse
-- dependents.
use pgedge_helm.Base.{
  ℕ, ◌+◌, ◌-◌, ◌<◌, ◌≤◌, ◌==◌, ==_iff, elem, All, All-elem, All-map, All-zip, ◌≡◌, sym, ◌∙◌, subst,
  Bool, true, false, List, [], ◌∷◌, ◌++◌, some, arith, Bool-cases, inl, inr, concat, elem-append,
  map,
}
use mathlib.Core.Bool.{false≢true}
use pgedge_helm.Base.Maps.{lookup, contains}
use pgedge_helm.Resource.{Identifier, identifier_key, Interface, Event}
use pgedge_helm.Resource.Topo.{event_id, events_at, topo_sort}
use pgedge_helm.Resource.Topo.Edges.{has_edge}
use pgedge_helm.Resource.Topo.Build.{has_edge_ends}
use pgedge_helm.Resource.Topo.Order.{IsOrdered, Layers-IsOrdered}
use pgedge_helm.Resource.Topo.Events.{ids, edge, event_set-All, edges_complete, edges_sound}
use pgedge_helm.Resource.Topo.Phases.{
  elem-ids-cons, set, graph, phases, contains-set, topo_sort-phases, phases-Layers,
}
use pgedge_helm.Resource.Topo.Sort.{
  events_at-All, ids-concat, concat-All, All-append_split, phases_known, All-unit,
}

module _ {R W : Type 0} (api : Interface R W) where
  open api use {dependencies}

  -- No event depends on an event of its own phase or of a later one.
  abbrev pub DependenciesFirst : List (List (Event R)) → Type 0
  DependenciesFirst [] = Unit
  DependenciesFirst (p ∷ ps) =
      All
        (λ e.
          (d : Identifier)
          → elem d (dependencies e.resource) ≡ true
          → elem d (ids api (p ++ concat ps)) ≡ false)
        p
      × DependenciesFirst ps

  -- On no event does an event of its own phase or of a later one depend.
  abbrev pub DependentsFirst : List (List (Event R)) → Type 0
  DependentsFirst [] = Unit
  DependentsFirst (p ∷ ps) =
      All (λ e. All (λ f. elem (event_id api e) (dependencies f.resource) ≡ false) (p ++ concat ps))
        p
      × DependentsFirst ps

  -- The dependencies among the events go down in rank, so that they have no cycle.
  abbrev pub IsRanked : (Identifier → ℕ) → List (Event R) → Type 0
  IsRanked rank events =
      All
        (λ e.
          (d : Identifier)
          → elem d (dependencies e.resource) ≡ true
          → elem d (ids api events) ≡ true
          → rank d < rank (event_id api e))
        events

  module _ (events : List (Event R)) where
    -- Every dependency among the events is an edge of the graph.
    edge_of :
        (reverse : Bool) (k : Identifier) (e : Event R)
        → lookup k (set api events) ≡ some e
        → (d : Identifier) → elem d (dependencies e.resource) ≡ true
        → elem d (ids api events) ≡ true
        → has_edge (edge api reverse k d).0 (edge api reverse k d).1 (graph api events reverse)
          ≡ true
    edge_of reverse k e found d dep m =
        let (complete, named) =
          event_set-All api
            (λ f.
              (x : Identifier)
              → elem x (dependencies f.resource) ≡ true
              → contains x (set api events) ≡ true
              → has_edge (edge api reverse (event_id api f) x).0
                  (edge api reverse (event_id api f) x).1 (graph api events reverse)
                ≡ true)
            k events (edges_complete api (set api events) reverse events) found in
        subst
          (λ j.
            has_edge (edge api reverse j d).0 (edge api reverse j d).1 (graph api events reverse)
            ≡ true)
          named (complete d dep (contains-set api events d ∙ m))

    abbrev Known : List Identifier → Type 0
    Known = All (λ k. elem k (ids api events) ≡ true)

    abbrev events_of : List Identifier → List (Event R)
    events_of = events_at api (set api events)

    IsOrdered-DependenciesFirst :
        (ls : List (List Identifier))
        → IsOrdered (graph api events false) ls
        → Known (concat ls)
        → DependenciesFirst (map events_of ls)
    IsOrdered-DependenciesFirst [] o known = tt
    IsOrdered-DependenciesFirst (p ∷ ps) o known = (
      events_at-All api
          (λ e.
            (d : Identifier)
            → elem d (dependencies e.resource) ≡ true
            → elem d (ids api (events_of p ++ concat (map events_of ps))) ≡ false)
          events p
          (λ k e m found d dep.
            rw (ids-concat api events (p ∷ ps) known) (later k e m found d dep)),
      IsOrdered-DependenciesFirst ps o.1
          (All-append_split api (λ k. elem k (ids api events) ≡ true) p (concat ps) known).1,
    )
      where
        later :
            (k : Identifier) (e : Event R)
            → elem k p ≡ true
            → lookup k (set api events) ≡ some e
            → (d : Identifier) → elem d (dependencies e.resource) ≡ true
            → elem d (p ++ concat ps) ≡ false
        later k e m found d dep = elim (Bool-cases (elem d (p ++ concat ps))) [
          | inl here ↦
              let known_d =
                All-elem (λ j. elem j (ids api events) ≡ true) (p ++ concat ps) d known here in
              absurd (false≢true (sym (o.0 d k m here) ∙ edge_of false k e found d dep known_d))
          | inr out ↦ out
        ]

    IsOrdered-DependentsFirst :
        (ls : List (List Identifier))
        → IsOrdered (graph api events true) ls
        → Known (concat ls)
        → DependentsFirst (map events_of ls)
    IsOrdered-DependentsFirst [] o known = tt
    IsOrdered-DependentsFirst (p ∷ ps) o known = (
      events_at-All api
          (λ e.
            All (λ f. elem (event_id api e) (dependencies f.resource) ≡ false)
              (events_of p ++ concat (map events_of ps)))
          events p
          (λ k e m found.
            concat-All api (λ f. elem (event_id api e) (dependencies f.resource) ≡ false) events
              (p ∷ ps) (λ j f n found_f. later k e m found j f n found_f)),
      IsOrdered-DependentsFirst ps o.1
          (All-append_split api (λ k. elem k (ids api events) ≡ true) p (concat ps) known).1,
    )
      where
        later :
            (k : Identifier) (e : Event R)
            → elem k p ≡ true
            → lookup k (set api events) ≡ some e
            → (j : Identifier) (f : Event R) → elem j (p ++ concat ps) ≡ true
            → lookup j (set api events) ≡ some f
            → elem (event_id api e) (dependencies f.resource) ≡ false
        later k e m found j f n found_f =
            let named =
              (event_set-All api (λ _. Unit {0}) k events (All-unit api events) found).1 in
            let known_k =
              All-elem (λ i. elem i (ids api events) ≡ true) (p ++ concat ps) k known
                (ground (arith, elem-append k p (concat ps))) in
            elim (Bool-cases (elem (event_id api e) (dependencies f.resource))) [
              | inl dep ↦ absurd (
                  false≢true (
                    sym (o.0 j k m n)
                    ∙ edge_of true j f found_f k
                        (subst (λ i. elem i (dependencies f.resource) ≡ true) named dep) known_k))
              | inr out ↦ out
            ]

    module _ (rank : Identifier → ℕ) (ranked : IsRanked rank events) where
      abbrev Ranked : Identifier → Identifier → Type 0
      Ranked s t = rank s < rank t

      graph_ranked :
          (s t : Identifier) → has_edge s t (graph api events false) ≡ true → rank s < rank t
      graph_ranked s t =
          has_edge_ends (λ a b. rank a < rank b) s t (graph api events false)
            (edges_sound api (λ a b. rank a < rank b) (set api events) false events
              (All-map (λ e h d dep c. h d dep (sym (contains-set api events d) ∙ c)) events
                ranked))

      -- `topoSort` in the order of creation, where the dependencies among the events go down in some
      -- rank: no event stands in a phase before, or in the phase of, one it depends on.
      pub topo_sort-DependenciesFirst : DependenciesFirst (topo_sort api events false)
      topo_sort-DependenciesFirst = rw (topo_sort-phases api events false) (
          IsOrdered-DependenciesFirst (phases api events false)
            (Layers-IsOrdered (graph api events false) rank graph_ranked
              (phases-Layers api events false))
            (phases_known api events false))

      -- The ranks upside down.
      total : List Identifier → ℕ
      total [] = 0
      total (k ∷ ks) = rank k + total ks

      rank-le-total : (k : Identifier) (ks : List Identifier) → elem k ks ≡ true → rank k ≤ total ks
      unfolding total
      rank-le-total k [] m = absurd (false≢true m)
      rank-le-total k (j ∷ ks) m = elim (Bool-cases (k == j)) [
        | inl here ↦ rw ((==_iff k j).0 here) (omega arith)
        | inr away ↦ omega (arith, rank-le-total k ks (ground arith))
      ]

      abbrev upside_down : Identifier → ℕ
      upside_down k = total (ids api events) - rank k

      graph_ranked_reverse :
          (s t : Identifier)
          → has_edge s t (graph api events true) ≡ true
          → upside_down s < upside_down t
      graph_ranked_reverse s t =
          has_edge_ends (λ a b. upside_down a < upside_down b) s t (graph api events true)
            (edges_sound api (λ a b. upside_down a < upside_down b) (set api events) true events
              (All-map
                (λ e h d dep c. omega (
                  arith,
                  h.0 d dep (sym (contains-set api events d) ∙ c),
                  rank-le-total (event_id api e) (ids api events) h.1,
                ))
                events (All-zip _ _ events ranked (elem-ids-cons api events events (λ j m. m)))))

      -- `topoSort` in reverse, where the dependencies among the events go down in some rank: no event
      -- in the phase of an event, or in a later phase, depends on it.
      pub topo_sort-DependentsFirst : DependentsFirst (topo_sort api events true)
      topo_sort-DependentsFirst = rw (topo_sort-phases api events true) (
          IsOrdered-DependentsFirst (phases api events true)
            (Layers-IsOrdered (graph api events true) upside_down graph_ranked_reverse
              (phases-Layers api events true))
            (phases_known api events true))
