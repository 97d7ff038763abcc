-- ===== src/Resource.antt =====
-- internal/resource/resource.go: identifiers, statuses, events and the `Resource` interface.
pub mod Topo
pub mod Plan
pub mod Execute
pub mod Reconcile
mod Tests
use pgedge_helm.Base.{
  ℕ, Key, ◌==◌, ==_iff, ◌≡◌, ◌↔◌, Bool, true, false, ◌&&◌, List, [], ◌∷◌, Option, arith, map,
}
use pgedge_helm.Base.Text.{Text, text_key, text_eq, text_eq_iff}

pub record Identifier : Type 0 where
  pub type : Text
  pub id : Text

unfoldable pub identifier_eq : Identifier → Identifier → Bool
identifier_eq a b = text_eq a.type b.type && text_eq a.id b.id

pub identifier_eq_iff : (a b : Identifier) → (identifier_eq a b ≡ true) ↔ (a ≡ b)
unfolding identifier_eq
identifier_eq_iff a b = ground (arith, text_eq_iff a.type b.type, text_eq_iff a.id b.id)

instance abbrev pub identifier_key : Key Identifier
identifier_key = record { same = identifier_eq; same_iff = identifier_eq_iff }

pub record Status : Type 0 where
  pub exists : Bool
  pub needs_recreate : Bool
  pub needs_update : Bool
  pub reason : Text

-- `Action` is an int of which three values are named.
pub data Action : Type 0 where
  create update delete : Action
  other : ℕ → Action

-- An error: a message, or one wrapped by `fmt.Errorf` on its way up.
pub data Error : Type 0 where
  message : Text → Error
  refresh_failed create_failed update_failed delete_failed : Identifier → Error → Error
  unsupported_action : ℕ → Identifier → Error
  phase_failed : ℕ → Error → Error
  context : Text → Error → Error

-- The interface `Resource` over references `R` to the objects. What the methods read and write
-- (the objects' fields, the databases) is a world `W`, and a context is its `Done` flag.
pub record Interface (R W : Type 0) : Type 0 where
  pub identifier : R → Identifier
  pub dependencies : R → List Identifier
  pub refresh : R → Bool → W → Option Error × W
  pub status : W → R → Status
  pub create_resource : R → Bool → W → Option Error × W
  pub update_resource : R → Bool → W → Option Error × W
  pub delete_resource : R → Bool → W → Option Error × W

pub record Event (R : Type 0) : Type 0 where
  pub action : Action
  pub resource : R
