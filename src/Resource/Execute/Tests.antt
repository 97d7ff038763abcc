-- ===== src/Resource/Execute/Tests.antt =====
-- A phase of three creations, of which the second of the slice fails, in the order from the last one.
use pgedge_helm.Base.{ℕ, zero, suc, Bool, List, [], ◌∷◌, Option, some, none}
use pgedge_helm.Base.Text.{bytes}
use pgedge_helm.Resource.{Interface, Event, create, Error, message, create_failed}

-- A creation fails without a number, and where the context has ended.
abbrev created : ℕ → Bool → Option Error
created zero cancelled = some (message (bytes "refused"))
created (suc n) cancelled = elim cancelled [
  | Bool.true ↦ some (message (bytes "context canceled"))
  | Bool.false ↦ none
]

-- The world is the log of the numbers, the last first.
abbrev numbers : Interface ℕ (List ℕ)
numbers = record {
  identifier = λ n. record { type = bytes "number"; id = n ∷ [] };
  dependencies = λ n. [];
  refresh = λ n cancelled w. (none, w);
  status = λ w n. record {
    exists = Bool.false;
    needs_recreate = Bool.false;
    needs_update = Bool.false;
    reason = [];
  };
  create_resource = λ n cancelled w. (created n cancelled, n ∷ w);
  update_resource = λ n cancelled w. (none, w);
  delete_resource = λ n cancelled w. (none, w);
}

abbrev creating : ℕ → Event ℕ
creating n = record { action = create; resource = n }

abbrev phase : List (Event ℕ)
phase = creating 1 ∷ creating 0 ∷ creating 2 ∷ []

abbrev refused : Error
refused = create_failed (record { type = bytes "number"; id = 0 ∷ [] }) (message (bytes "refused"))
