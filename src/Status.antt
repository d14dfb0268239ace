-- ===== src/Status.antt =====
-- v2/statusw/status.go: errors with a code for the client, and their copies by the With* methods.
pub mod Copies
pub mod Visible
mod Tests
use go_utility.Base.{ℕ, String, Option, none, some, List, [], ◌∷◌, ◌++◌, length, get_elem?, set}
use go_utility.Base.Int.{ℤ, pos}

-- An `error`: nil, one of this package with its five fields, and others, which may wrap one by %w.
-- `D` is what the `any` of `Data` holds, `none` where it is nil.
pub data GoError (D : Type 0) : Type 0 where
  nil : GoError D
  plain : String → GoError D
  wrapped : String → GoError D → GoError D
  status : ℤ → String → String → GoError D → Option D → GoError D

-- `Error`
pub record StatusError (D : Type 0) : Type 0 where
  pub logical_code : ℤ
  pub custom_code : String
  pub message : String
  pub cause : GoError D
  pub data_of : Option D

-- The fields of the JSON object that the client gets.
pub data Field (D : Type 0) : Type 0 where
  text : String → Field D
  payload : D → Field D

abbrev pub template : {D : Type 0} → ℤ → String → String → StatusError D
template code custom msg = record {
  logical_code = code;
  custom_code = custom;
  message = msg;
  cause = nil;
  data_of = none;
}

module _ {D : Type 0} where
  -- The predefined errors, as the first six objects of the store.
  unfoldable pub templates : List (StatusError D)
  templates =
      template (pos 500000) "INTERNAL_ERROR" "Internal server error"
      ∷ template (pos 400000) "INVALID_ARGUMENT" "Invalid request parameters"
      ∷ template (pos 404000) "NOT_FOUND" "Resource not found"
      ∷ template (pos 401000) "UNAUTHENTICATED" "Invalid or missing credentials"
      ∷ template (pos 403000) "PERMISSION_DENIED"
          "You don't have permission to access this resource"
      ∷ template (pos 409000) "CONFLICT" "Resource conflict or already exists"
      ∷ []

  -- `Unwrap`, and `errors.As` with a `*Error`, which follows it.
  abbrev pub unwrap : GoError D → GoError D
  unwrap nil = nil
  unwrap (plain m) = nil
  unwrap (wrapped m e) = e
  unwrap (status l c m e d) = e

  abbrev pub as_status : GoError D → Option (StatusError D)
  as_status nil = none
  as_status (plain m) = none
  as_status (wrapped m e) = as_status e
  as_status (status l c m e d) =
      some (record { logical_code = l; custom_code = c; message = m; cause = e; data_of = d })

  -- A `*Error` is an index into the store of errors; `none` is the panic of a nil pointer.
  -- `clone` allocates a copy.
  unfoldable pub clone : ℕ → List (StatusError D) → Option (List (StatusError D) × ℕ)
  clone p store = elim (get_elem? store p) [
    | none ↦ none
    | some e ↦ some (store ++ e ∷ [], length store)
  ]

  -- An assignment to a field of the object behind a pointer.
  abbrev pub assign :
      ℕ → (StatusError D → StatusError D) → List (StatusError D) → List (StatusError D)
  assign p f store = elim (get_elem? store p) [ none ↦ store | some e ↦ set store p (f e) ]

  -- The body that the four methods share: `ne := e.clone()`, an assignment, `return ne`.
  abbrev pub with_field :
      (StatusError D → StatusError D) → ℕ → List (StatusError D) → Option (List (StatusError D) × ℕ)
  unfolding clone
  with_field f p store = elim (clone p store) [
    | none ↦ none
    | some (store', ne) ↦ some (assign ne f store', ne)
  ]

  unfoldable pub with_custom_message :
      String → ℕ → List (StatusError D) → Option (List (StatusError D) × ℕ)
  unfolding with_field
  with_custom_message msg = with_field (λ e. record e { message = msg })

  unfoldable pub with_custom_code :
      String → ℕ → List (StatusError D) → Option (List (StatusError D) × ℕ)
  unfolding with_field
  with_custom_code code = with_field (λ e. record e { custom_code = code })

  unfoldable pub with_error :
      GoError D → ℕ → List (StatusError D) → Option (List (StatusError D) × ℕ)
  unfolding with_field
  with_error err = with_field (λ e. record e { cause = err })

  unfoldable pub with_data : Option D → ℕ → List (StatusError D) → Option (List (StatusError D) × ℕ)
  unfolding with_field
  with_data data_of = with_field (λ e. record e { data_of = data_of })

  -- `ToResponse`: the object under the key "error".
  unfoldable pub to_response : StatusError D → List (String × Field D)
  to_response e =
      ("code", text e.custom_code)
      ∷ ("message", text e.message)
      ∷ elim (e.data_of) [ none ↦ [] | some d ↦ ("data", payload d) ∷ [] ]
