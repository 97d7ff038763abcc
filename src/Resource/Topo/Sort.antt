-- ===== src/Resource/Topo/Sort.antt =====
-- `topoSort` (internal/resource/plan.go): what it emits, and in which order.
use pgedge_helm.Base.{
  ==_refl, elem, elem-All, All, All-append, Nodup, ◌≡◌, refl, sym, ◌∙◌, ap, Bool, true, List, [],
  ◌∷◌, ◌++◌, some, arith, Option-cases, inl, inr, concat, elem-append, map,
}
use pgedge_helm.Base.Maps.{keys, lookup, lookup_of_elem}
use pgedge_helm.Resource.{Identifier, identifier_key, Interface, Event}
use pgedge_helm.Resource.Topo.{event_id, events_at, topo_sort}
use pgedge_helm.Resource.Topo.Order.{elem-concat, concat-Nodup}
use pgedge_helm.Resource.Topo.Events.{
  ids, last_with, lookup-event_set, event_set-All, elem-keys-event_set,
}
use pgedge_helm.Resource.Topo.Phases.{
  set, graph, phases, elem-start, topo_sort-phases, phases-Layers,
}

module _ {R W : Type 0} (api : Interface R W) where
  open api use {identifier, dependencies}

  pub ids-append : (xs ys : List (Event R)) → ids api (xs ++ ys) ≡ ids api xs ++ ids api ys
  ids-append [] ys = refl
  ids-append (x ∷ xs) ys = ap (λ l. event_id api x ∷ l) (ids-append xs ys)

  pub All-unit : (es : List (Event R)) → All (λ _. Unit {0}) es
  All-unit [] = tt
  All-unit (_ ∷ es) = (tt, All-unit es)

  -- Each phase holds one event for each identifier asked for.
  pub ids-events_at :
      (events : List (Event R)) (ks : List Identifier)
      → All (λ k. elem k (ids api events) ≡ true) ks
      → ids api (events_at api (set api events) ks) ≡ ks
  unfolding events_at
  ids-events_at events [] h = refl
  ids-events_at events (k ∷ ks) h =
      let m : elem k (keys (set api events)) ≡ true = elem-keys-event_set api k events [] ∙ h.0 in
      let (e, found) = lookup_of_elem k (set api events) m in
      let named = (event_set-All api (λ _. Unit {0}) k events (All-unit events) found).1 in
      rw (found, events_at) (ground (arith, named, ids-events_at events ks h.1))

  -- What holds of each event of the list, at its identifier, holds of the events emitted.
  pub events_at-All :
      (P : Event R → Type 0) (events : List (Event R)) (ks : List Identifier)
      → ((k : Identifier) (e : Event R)
          → elem k ks ≡ true
          → lookup k (set api events) ≡ some e
          → P e)
      → All P (events_at api (set api events) ks)
  unfolding events_at
  events_at-All P events [] h = tt
  events_at-All P events (k ∷ ks) h = elim (Option-cases (lookup k (set api events))) [
    | inl missing ↦
        rw (missing, events_at) (events_at-All P events ks (λ j e m. h j e (ground arith)))
    | inr (e, found) ↦
        rw (found, events_at)
          (
            h k e (ground (arith, ==_refl k)) found,
            events_at-All P events ks (λ j e m. h j e (ground arith)),
          )
  ]

  pub All-append_split :
      (P : Identifier → Type 0) (xs ys : List Identifier) → All P (xs ++ ys) → All P xs × All P ys
  All-append_split P [] ys h = (tt, h)
  All-append_split P (x ∷ xs) ys h = let (a, b) = All-append_split P xs ys h.1 in ((h.0, a), b)

  pub ids-concat :
      (events : List (Event R)) (ls : List (List Identifier))
      → All (λ k. elem k (ids api events) ≡ true) (concat ls)
      → ids api (concat (map (events_at api (set api events)) ls)) ≡ concat ls
  ids-concat events [] h = refl
  ids-concat events (p ∷ ps) h =
      let (a, b) = All-append_split (λ k. elem k (ids api events) ≡ true) p (concat ps) h in
      ids-append (events_at api (set api events) p)
        (concat (map (events_at api (set api events)) ps))
      ∙ cc (ids-events_at events p a, ids-concat events ps b)

  pub concat-All :
      (P : Event R → Type 0) (events : List (Event R)) (ls : List (List Identifier))
      → ((k : Identifier) (e : Event R)
          → elem k (concat ls) ≡ true
          → lookup k (set api events) ≡ some e
          → P e)
      → All P (concat (map (events_at api (set api events)) ls))
  concat-All P events [] h = tt
  concat-All P events (p ∷ ps) h =
      All-append P (events_at api (set api events) p)
        (concat (map (events_at api (set api events)) ps))
        (events_at-All P events p (λ k e m. h k e (ground (arith, elem-append k p (concat ps)))))
        (concat-All P events ps (λ k e m. h k e (ground (arith, elem-append k p (concat ps)))))

  module _ (events : List (Event R)) (reverse : Bool) where
    in_phases :
        (k : Identifier) → elem k (concat (phases api events reverse)) ≡ elem k (ids api events)
    in_phases k =
        elem-concat (graph api events reverse) k (phases-Layers api events reverse)
        ∙ elem-start api events k

    pub phases_known :
        All (λ k. elem k (ids api events) ≡ true) (concat (phases api events reverse))
    phases_known =
        elem-All (λ k. elem k (ids api events) ≡ true) (concat (phases api events reverse))
          (λ k m. sym (in_phases k) ∙ m)

    -- The phases of `topoSort` hold exactly one event for each identifier among the events: every identifier
    -- occurs, none occurs twice, and the event is the last one that was given with it.
    pub topo_sort-events :
        ((k : Identifier)
          → elem k (ids api (concat (topo_sort api events reverse))) ≡ elem k (ids api events))
        × Nodup (ids api (concat (topo_sort api events reverse)))
        × All
            (λ e. last_with api (event_id api e) events ≡ some e)
            (concat (topo_sort api events reverse))
    topo_sort-events = rw (topo_sort-phases api events reverse) (
      rw (ids-concat events (phases api events reverse) phases_known) in_phases,
      rw (ids-concat events (phases api events reverse) phases_known)
          (concat-Nodup (graph api events reverse) (phases-Layers api events reverse)),
      concat-All (λ e. last_with api (event_id api e) events ≡ some e) events
          (phases api events reverse)
          (λ k e m found. ground (
            arith,
            lookup-event_set api k events [],
            (event_set-All api (λ _. Unit {0}) k events (All-unit events) found).1,
          )),
    )

    pub topo_sort-All :
        (P : Event R → Type 0) → All P events → All P (concat (topo_sort api events reverse))
    topo_sort-All P h = rw (topo_sort-phases api events reverse) (
        concat-All P events (phases api events reverse)
          (λ k e m found. (event_set-All api P k events h found).0))
