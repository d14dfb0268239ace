-- ===== src/Response.antt =====
-- response/echo_error.go over errow: from an error to the HTTP response.
pub mod Order
pub mod Convert
mod Tests
use go_utility.Base.{
  ℕ, String, Bool, true, false, ◌||◌, Option, none, some, List, [], ◌∷◌, map, if◌then◌else◌,
}
use go_utility.Base.Int.{ℤ, pos, ltb_ℤ}
use go_utility.Base.Codes.{int_eq, lookup_code}

-- The errors that the package tells apart: its own `ErrorW` and `ErrorResponse`, echo's error for a
-- missing route, a failed validation of ozzo-validation, the errors of pkg/errors (`New`, `WithStack`,
-- `WithMessage`), any other error, one wrapped by `%w`, and several at once, by `errors.Join` or more
-- than one `%w`: the first one and the rest.
pub data GoError : Type 0 where
  error_w : ℤ → String → GoError
  response : ℕ → String → ℤ → GoError → GoError
  fundamental : String → GoError
  plain : String → GoError
  with_stack : GoError → GoError
  with_message : String → GoError → GoError
  wrapped : String → GoError → GoError
  joined : GoError → GoError → GoError
  missing_route : GoError
  invalid : String → GoError

-- `ErrorResponse`; `Success` is always false here, and `RequestID` is what the context holds.
pub record ErrorResponse : Type 0 where
  pub http_code : ℕ
  pub message : String
  pub error_code : ℤ
  pub internal : GoError

abbrev pub as_error : ErrorResponse → GoError
as_error r = response r.http_code r.message r.error_code r.internal

-- `err.(stackTracer)`
abbrev pub has_stack_trace : GoError → Bool
has_stack_trace (fundamental m) = true
has_stack_trace (with_stack e) = true
has_stack_trace _ = false

-- `errors.Cause` follows what has a `Cause` method.
abbrev pub cause : GoError → GoError
cause (with_stack e) = cause e
cause (with_message m e) = cause e
cause e = e

abbrev pub first_of {ℓ} : {A : Type ℓ} → Option A → Option A → Option A
first_of none o = o
first_of (some a) o = some a

-- `errors.As` with an `ErrorW`, and with an `ErrorResponse`: they follow `Unwrap`, depth first where
-- it gives several errors.
abbrev pub as_error_w : GoError → Option (ℤ × String)
as_error_w (error_w c m) = some (c, m)
as_error_w (with_stack e) = as_error_w e
as_error_w (with_message m e) = as_error_w e
as_error_w (wrapped m e) = as_error_w e
as_error_w (joined e es) = first_of (as_error_w e) (as_error_w es)
as_error_w _ = none

abbrev pub as_response : GoError → Option ErrorResponse
as_response (response h m c e) =
    some (record { http_code = h; message = m; error_code = c; internal = e })
as_response (with_stack e) = as_response e
as_response (with_message m e) = as_response e
as_response (wrapped m e) = as_response e
as_response (joined e es) = first_of (as_response e) (as_response es)
as_response _ = none

-- `errors.Is` with `echo.ErrNotFound`, and `errors.As` with the two types of ozzo-validation.
abbrev pub is_not_found : GoError → Bool
is_not_found missing_route = true
is_not_found (with_stack e) = is_not_found e
is_not_found (with_message m e) = is_not_found e
is_not_found (wrapped m e) = is_not_found e
is_not_found (joined e es) = is_not_found e || is_not_found es
is_not_found _ = false

abbrev pub is_validation : GoError → Bool
is_validation (invalid m) = true
is_validation (with_stack e) = is_validation e
is_validation (with_message m e) = is_validation e
is_validation (wrapped m e) = is_validation e
is_validation (joined e es) = is_validation e || is_validation es
is_validation _ = false

abbrev pub ensure_stack : GoError → GoError
ensure_stack e = if has_stack_trace e then e else with_stack e

-- The body that the six constructors below share, each with its own HTTP code.
unfoldable pub respond : ℕ → GoError → ErrorResponse
respond http_code e =
    let err = ensure_stack e in
    elim (as_error_w (cause err)) [
      | none ↦ record { http_code = http_code; message = ""; error_code = pos 0; internal = err }
      | some (c, m) ↦ record { http_code = http_code; message = m; error_code = c; internal = err }
    ]

unfoldable pub err_internal_server_error : GoError → ErrorResponse
unfolding respond
err_internal_server_error = respond 500

unfoldable pub err_unauthorized : GoError → ErrorResponse
unfolding respond
err_unauthorized = respond 401

unfoldable pub err_forbidden : GoError → ErrorResponse
unfolding respond
err_forbidden = respond 403

unfoldable pub err_session_expired : GoError → ErrorResponse
unfolding respond
err_session_expired = respond 440

unfoldable pub err_not_found : GoError → ErrorResponse
unfolding respond
err_not_found = respond 404

unfoldable pub err_bad_request : GoError → ErrorResponse
unfolding respond
err_bad_request = respond 400

unfoldable pub http_error : GoError → ℕ → ℤ → String → ErrorResponse
http_error e status code message = record {
  http_code = status;
  message = message;
  error_code = code;
  internal = ensure_stack e;
}

-- `map[errow.ErrorWCode]ErrResponseFunc`
abbrev pub ErrorMap : Type 0
ErrorMap = List (ℤ × (GoError → ErrorResponse))

-- `sort.Slice` with `>`, by insertion.
abbrev pub insert_desc : ℤ → List ℤ → List ℤ
insert_desc k [] = k ∷ []
insert_desc k (j ∷ js) = if ltb_ℤ k j then j ∷ insert_desc k js else k ∷ (j ∷ js)

unfoldable pub sort_desc : List ℤ → List ℤ
sort_desc [] = []
sort_desc (k ∷ ks) = insert_desc k (sort_desc ks)

-- The loop of `ConvertError`: the first key that the code is not below.
unfoldable pub pick : ℤ → List ℤ → Option ℤ
pick code [] = none
pick code (k ∷ ks) = if ltb_ℤ code k then pick code ks else some k

abbrev pub keys : ErrorMap → List ℤ
keys [] = []
keys ((k, f) ∷ m) = k ∷ keys m

-- `ConvertError`; a key that is picked is in the map.
unfoldable pub convert_error : GoError → ErrorMap → GoError
unfolding sort_desc pick
convert_error err m = elim (as_error_w err) [
  | none ↦ err
  | some (c, msg) ↦ elim (pick c (sort_desc (keys m))) [
    | none ↦ err
    | some k ↦ elim (lookup_code k m) [ none ↦ err | some f ↦ as_error (f (error_w c msg)) ]
  ]
]

-- `MapDefaultErrResponse`
unfoldable pub default_map : ErrorMap
unfolding err_internal_server_error err_session_expired err_forbidden err_unauthorized
    err_bad_request err_not_found
default_map =
    (pos 500000, err_internal_server_error)
    ∷ (pos 440000, err_session_expired)
    ∷ (pos 403000, err_forbidden)
    ∷ (pos 401000, err_unauthorized)
    ∷ (pos 400000, err_bad_request)
    ∷ (pos 404000, err_not_found)
    ∷ []

-- What `CustomHttpErrorHandler` sends: its logging is left out. `text_of` is the error's text.
module _ (text_of : GoError → String) where
  abbrev internal_server_error : GoError → ErrorResponse
  internal_server_error err = record {
    http_code = 500;
    message = "internal server error";
    error_code = pos 500000;
    internal = err;
  }

  -- The response that the handler finds first, and the error that carries it.
  abbrev first_response : GoError → ErrorResponse × GoError
  first_response err = elim (as_response err) [
    | some r ↦ (r, err)
    | none ↦ (internal_server_error err, as_error (internal_server_error err))
  ]

  unfoldable pub handle_error : ErrorMap → GoError → ErrorResponse
  unfolding convert_error http_error err_internal_server_error
  handle_error m e =
      let (found, err) = first_response (convert_error e m) in
      let err₁ =
        if is_not_found found.internal
        then as_error
            (http_error found.internal 404 (pos 404000) "requested endpoint is not registered")
        else err in
      let err₂ =
        if is_validation found.internal
        then as_error (http_error found.internal 400 (pos 400000) (text_of found.internal))
        else err₁ in
      elim (as_response err₂) [ some r ↦ r | none ↦ err_internal_server_error err₂ ]
