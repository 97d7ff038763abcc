-- ===== src/Resource/Plan/Converged.antt =====
-- `Plan` (internal/resource/plan.go) is empty exactly when there is nothing to do.
use pgedge_helm.Base.{
  elem, ◌≡◌, refl, ◌↔◌, sym, ap, ◌∙◌, Bool, true, false, List, [], ◌∷◌, ◌++◌, concat, arith,
  ==_refl,
}
use mathlib.Core.Bool.{false≢true}
use pgedge_helm.Base.Maps.{Map, keys}
use pgedge_helm.Resource.{Identifier, identifier_key, Interface, Event}
use pgedge_helm.Resource.Topo.{event_id}
use pgedge_helm.Resource.Topo.Events.{ids}
use pgedge_helm.Resource.Topo.Sort.{topo_sort-events}
use pgedge_helm.Resource.Plan.{plan, sorted}
use pgedge_helm.Resource.Plan.Slices.{IsKeyed, under, broken, stale}
use pgedge_helm.Resource.Plan.Actions.{
  slices, in_deletes, in_creates, in_updates, under-elem, sorted_lem,
}

module _ {R W : Type 0} (api : Interface R W) (w : W) where
  -- The same identifiers, and nothing to recreate or to update.
  abbrev pub IsConverged : Map Identifier R → Map Identifier R → Type 0
  IsConverged actual desired =
      (k : Identifier)
      → (elem k (keys actual) ≡ elem k (keys desired))
        × (under api w k (broken api w) desired ≡ false)
        × (under api w k (stale api w) desired ≡ false)

  nil_of_ids : (es : List (Event R)) → ((k : Identifier) → elem k (ids api es) ≡ false) → es ≡ []
  nil_of_ids [] h = refl
  nil_of_ids (e ∷ es) h =
      absurd (false≢true (sym (h (event_id api e)) ∙ ground (arith, ==_refl (event_id api e))))

  nil_of_sorted :
      (es : List (Event R)) (reverse : Bool)
      → sorted api w es reverse ≡ []
      → (k : Identifier) → elem k (ids api es) ≡ false
  nil_of_sorted es reverse e k =
      sym ((topo_sort-events api es reverse).0 k)
      ∙ ap (λ l. elem k (ids api (concat l))) (sym (sorted_lem api w es reverse) ∙ e)

  append_nil_parts : {A : Type 0} (xs ys : List A) → xs ++ ys ≡ [] → (xs ≡ []) × (ys ≡ [])
  append_nil_parts [] ys e = (refl, e)
  append_nil_parts (x ∷ xs) ys e = absurd (cc)

  module _ (actual desired : Map Identifier R) (ka : IsKeyed api w actual)
      (kd : IsKeyed api w desired) where
    converged : plan api w actual desired ≡ [] → IsConverged actual desired
    unfolding plan
    converged e k =
        let b = slices api w actual desired ka kd in
        let (d, rest) =
          append_nil_parts (sorted api w b.deletes true)
            (sorted api w b.updates false ++ sorted api w b.creates false) e in
        let (u, c) =
          append_nil_parts (sorted api w b.updates false) (sorted api w b.creates false) rest in
        ground (
          arith,
          nil_of_sorted b.deletes true d k,
          nil_of_sorted b.updates false u k,
          nil_of_sorted b.creates false c k,
          in_deletes api w actual desired ka kd k,
          in_updates api w actual desired ka kd k,
          in_creates api w actual desired ka kd k,
          under-elem api w k (broken api w) desired,
          under-elem api w k (stale api w) desired,
        )

    nothing : IsConverged actual desired → plan api w actual desired ≡ []
    unfolding plan
    nothing h =
        let b = slices api w actual desired ka kd in
        let d =
          nil_of_ids b.deletes
            (λ k. ground (arith, h k, in_deletes api w actual desired ka kd k)) in
        let u =
          nil_of_ids b.updates
            (λ k. ground (arith, h k, in_updates api w actual desired ka kd k)) in
        let c =
          nil_of_ids b.creates
            (λ k. ground (arith, h k, in_creates api w actual desired ka kd k)) in
        rw (d, u, c)

    -- Where every resource stands under its identifier, there is nothing to execute exactly when the
    -- maps have the same identifiers and no wanted resource has to be recreated or updated.
    pub plan-eq-nil_iff : (plan api w actual desired ≡ []) ↔ IsConverged actual desired
    plan-eq-nil_iff = (converged, nothing)
