-- ===== src/Resource/Topo/Events.antt =====
-- The events of `topoSort` (internal/resource/plan.go) as a graph over their identifiers.
use pgedge_helm.Base.{
  ◌==◌, ==_iff, ==_refl, elem, All, All-map, All-append, Nodup, ◌≡◌, refl, sym, ◌∙◌, subst, ap,
  Bool, true, false, ◌||◌, List, [], ◌∷◌, ◌++◌, if◌then◌else◌, some, none, Option, arith,
  Bool-cases, Option-cases, inl, inr,
}
use pgedge_helm.Base.Int.{ℤ, pos}
use pgedge_helm.Base.Maps.{
  Map, keys, lookup, contains, insert, lookup-insert, elem-keys-insert, insert-Nodup,
}
use pgedge_helm.Resource.{Identifier, identifier_key, Interface, Event}
use pgedge_helm.Resource.Topo.{
  event_id, event_set, zero_degrees, link_one, link_deps, link_events, Graph,
}
use pgedge_helm.Resource.Topo.Edges.{Edges, has_edge, has_edge-append}
use pgedge_helm.Resource.Topo.Build.{add_edges, add_edges-append}

module _ {R W : Type 0} (api : Interface R W) where
  open api use {identifier, dependencies}

  abbrev pub ids : List (Event R) → List Identifier
  ids [] = []
  ids (e ∷ es) = event_id api e ∷ ids es

  abbrev pub edge : Bool → Identifier → Identifier → Identifier × Identifier
  edge reverse id dep = if reverse then (id, dep) else (dep, id)

  abbrev pub dep_edges :
      Map Identifier (Event R) → Bool → Identifier → List Identifier → Edges Identifier
  dep_edges set reverse id [] = []
  dep_edges set reverse id (dep ∷ deps) =
      (if contains dep set then edge reverse id dep ∷ [] else []) ++ dep_edges set reverse id deps

  abbrev pub edges : Map Identifier (Event R) → Bool → List (Event R) → Edges Identifier
  edges set reverse [] = []
  edges set reverse (e ∷ es) =
      dep_edges set reverse (event_id api e) (dependencies e.resource) ++ edges set reverse es

  link_one-add_edges :
      (set : Map Identifier (Event R)) (reverse : Bool) (id dep : Identifier) (g : Graph api)
      → link_one api set reverse id dep g
        ≡ add_edges (if contains dep set then edge reverse id dep ∷ [] else []) g
  unfolding link_one
  link_one-add_edges set true id dep g = elim (Bool-cases (contains dep set)) [
    | inl present ↦ rw present
    | inr absent ↦ rw absent
  ]
  link_one-add_edges set false id dep g = elim (Bool-cases (contains dep set)) [
    | inl present ↦ rw present
    | inr absent ↦ rw absent
  ]

  link_deps-add_edges :
      (set : Map Identifier (Event R)) (reverse : Bool) (id : Identifier) (deps : List Identifier)
      (g : Graph api)
      → link_deps api set reverse id deps g ≡ add_edges (dep_edges set reverse id deps) g
  unfolding link_deps
  link_deps-add_edges set reverse id [] g = refl
  link_deps-add_edges set reverse id (dep ∷ deps) g =
      link_deps-add_edges set reverse id deps (link_one api set reverse id dep g)
      ∙ ap (add_edges (dep_edges set reverse id deps)) (link_one-add_edges set reverse id dep g)
      ∙ sym (
          add_edges-append (if contains dep set then edge reverse id dep ∷ [] else [])
            (dep_edges set reverse id deps) g)

  pub link_events-add_edges :
      (set : Map Identifier (Event R)) (reverse : Bool) (es : List (Event R)) (g : Graph api)
      → link_events api set reverse es g ≡ add_edges (edges set reverse es) g
  unfolding link_events
  link_events-add_edges set reverse [] g = refl
  link_events-add_edges set reverse (e ∷ es) g =
      link_events-add_edges set reverse es
        (link_deps api set reverse (event_id api e) (dependencies e.resource) g)
      ∙ ap (add_edges (edges set reverse es))
          (link_deps-add_edges set reverse (event_id api e) (dependencies e.resource) g)
      ∙ sym (
          add_edges-append (dep_edges set reverse (event_id api e) (dependencies e.resource))
            (edges set reverse es) g)

  pub elem-keys-event_set :
      (j : Identifier) (es : List (Event R)) (m : Map Identifier (Event R))
      → elem j (keys (event_set api es m)) ≡ (elem j (keys m) || elem j (ids es))
  unfolding event_set
  elem-keys-event_set j [] m = ground arith
  elem-keys-event_set j (e ∷ es) m = ground (
    arith,
    elem-keys-event_set j es (insert (event_id api e) e m),
    elem-keys-insert j (event_id api e) e m,
  )

  pub elem-keys-zero_degrees :
      (j : Identifier) (es : List (Event R)) (m : Map Identifier ℤ)
      → elem j (keys (zero_degrees api es m)) ≡ (elem j (keys m) || elem j (ids es))
  unfolding zero_degrees
  elem-keys-zero_degrees j [] m = ground arith
  elem-keys-zero_degrees j (e ∷ es) m = ground (
    arith,
    elem-keys-zero_degrees j es (insert (event_id api e) (pos 0) m),
    elem-keys-insert j (event_id api e) (pos 0) m,
  )

  pub zero_degrees-Nodup :
      (es : List (Event R)) (m : Map Identifier ℤ)
      → Nodup (keys m)
      → Nodup (keys (zero_degrees api es m))
  unfolding zero_degrees
  zero_degrees-Nodup [] m h = h
  zero_degrees-Nodup (e ∷ es) m h =
      zero_degrees-Nodup es (insert (event_id api e) (pos 0) m)
        (insert-Nodup (event_id api e) (pos 0) m h)

  pub lookup-zero_degrees :
      (es : List (Event R)) (m : Map Identifier ℤ)
      → ((k : Identifier) → elem k (keys m) ≡ true → lookup k m ≡ some (pos 0))
      → (k : Identifier) → elem k (keys (zero_degrees api es m)) ≡ true
      → lookup k (zero_degrees api es m) ≡ some (pos 0)
  unfolding zero_degrees
  lookup-zero_degrees [] m h = h
  lookup-zero_degrees (e ∷ es) m h =
      lookup-zero_degrees es (insert (event_id api e) (pos 0) m) λ k i. ground (
        arith,
        lookup-insert k (event_id api e) (pos 0) m,
        elem-keys-insert k (event_id api e) (pos 0) m,
        h k,
      )

  -- The last event of the list with an identifier.
  abbrev pub last_with : Identifier → List (Event R) → Option (Event R)
  last_with k [] = none
  last_with k (e ∷ es) =
      let later = last_with k es in
      elim later [ some f ↦ some f | none ↦ if k == event_id api e then some e else none ]

  pub lookup-event_set :
      (k : Identifier) (es : List (Event R)) (m : Map Identifier (Event R))
      → lookup k (event_set api es m)
        ≡ elim (last_with k es) [ some f ↦ some f | none ↦ lookup k m ]
  unfolding event_set
  lookup-event_set k [] m = refl
  lookup-event_set k (e ∷ es) m = ground (
    arith,
    lookup-event_set k es (insert (event_id api e) e m),
    lookup-insert k (event_id api e) e m,
  )

  last_with-All :
      (P : Event R → Type 0) (k : Identifier) {e : Event R} (es : List (Event R))
      → All P es
      → last_with k es ≡ some e
      → P e × (event_id api e ≡ k)
  last_with-All P k [] h found = cc
  last_with-All P k {e} (f ∷ es) h found = elim (Option-cases (last_with k es)) [
    | inl last ↦ ground (arith, ==_iff k (event_id api f))
    | inr (g, later) ↦ last_with-All P k es h.1 (ground arith)
  ]

  pub event_set-All :
      (P : Event R → Type 0) (k : Identifier) {e : Event R} (es : List (Event R))
      → All P es
      → lookup k (event_set api es []) ≡ some e
      → P e × (event_id api e ≡ k)
  event_set-All P k {e} es h found =
      last_with-All P k es h (ground (arith, lookup-event_set k es []))

  dep_edges_complete :
      (set : Map Identifier (Event R)) (reverse : Bool) (id dep : Identifier)
      (deps : List Identifier)
      → elem dep deps ≡ true
      → contains dep set ≡ true
      → has_edge (edge reverse id dep).0 (edge reverse id dep).1 (dep_edges set reverse id deps)
        ≡ true
  dep_edges_complete set reverse id dep [] m c = cc
  dep_edges_complete set reverse id dep (d ∷ deps) m c = elim (Bool-cases (dep == d)) [
    | inl here ↦
        let same = (==_iff dep d).0 here in
        let present : contains d set ≡ true = subst (λ x. contains x set ≡ true) same c in
        rw present (
          subst
            (λ x.
              has_edge (edge reverse id dep).0 (edge reverse id dep).1
                (edge reverse id x ∷ dep_edges set reverse id deps)
              ≡ true)
            same (ground (arith, ==_refl (edge reverse id dep).0, ==_refl (edge reverse id dep).1)))
    | inr away ↦
        let (s, t) = edge reverse id dep in
        ground (
          arith,
          has_edge-append s t (if contains d set then edge reverse id d ∷ [] else [])
              (dep_edges set reverse id deps),
          dep_edges_complete set reverse id dep deps (ground arith) c,
        )
  ]

  -- The edges that a list of events has, by the dependency that each stands for.
  pub edges_complete :
      (set : Map Identifier (Event R)) (reverse : Bool) (es : List (Event R))
      → All
          (λ e.
            (dep : Identifier)
            → elem dep (dependencies e.resource) ≡ true
            → contains dep set ≡ true
            → has_edge
                (edge reverse (event_id api e) dep).0
                (edge reverse (event_id api e) dep).1
                (edges set reverse es)
              ≡ true)
          es
  edges_complete set reverse [] = tt
  edges_complete set reverse (e ∷ es) = (
    (λ dep m c.
        let (s, t) = edge reverse (event_id api e) dep in
        ground (
          arith,
          has_edge-append s t own (edges set reverse es),
          dep_edges_complete set reverse (event_id api e) dep (dependencies e.resource) m c,
        )),
    All-map
        (λ f h dep m c.
          let (s, t) = edge reverse (event_id api f) dep in
          ground (arith, has_edge-append s t own (edges set reverse es), h dep m c))
        es (edges_complete set reverse es),
  )
    where
      own : Edges Identifier
      own = dep_edges set reverse (event_id api e) (dependencies e.resource)

  -- A relation between an event's identifier and its dependencies holds of every edge.
  pub edges_sound :
      (P : Identifier → Identifier → Type 0) (set : Map Identifier (Event R)) (reverse : Bool)
      (es : List (Event R))
      → All
          (λ e.
            (dep : Identifier)
            → elem dep (dependencies e.resource) ≡ true
            → contains dep set ≡ true
            → P (edge reverse (event_id api e) dep).0 (edge reverse (event_id api e) dep).1)
          es
      → All (λ e. P e.0 e.1) (edges set reverse es)
  edges_sound P set reverse [] h = tt
  edges_sound P set reverse (e ∷ es) h =
      All-append (λ e. P e.0 e.1) (dep_edges set reverse (event_id api e) (dependencies e.resource))
        (edges set reverse es) (one (event_id api e) (dependencies e.resource) h.0)
        (edges_sound P set reverse es h.1)
    where
      one :
          (id : Identifier) (deps : List Identifier)
          → ((dep : Identifier)
              → elem dep deps ≡ true
              → contains dep set ≡ true
              → P (edge reverse id dep).0 (edge reverse id dep).1)
          → All (λ e. P e.0 e.1) (dep_edges set reverse id deps)
      one id [] k = tt
      one id (dep ∷ deps) k = elim (Bool-cases (contains dep set)) [
        | inl present ↦ rw present (
          k dep (ground (arith, ==_refl dep)) present,
          one id deps (λ d m c. k d (ground arith) c),
        )
        | inr absent ↦ rw absent (one id deps (λ d m c. k d (ground arith) c))
      ]
