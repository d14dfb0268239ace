-- ===== src/Response/Tests.antt =====
-- Runs of echo_error.go, and an example of each result about it.
use go_utility.Base.{none, ◌⊎◌, string_eq, String, some, [], ◌∷◌, ◌≡◌, refl, arith}
use go_utility.Base.Int.{ℤ, pos, ◌≤ℤ◌, ◌<ℤ◌}
use go_utility.Base.Codes.{lookup_code, int_eq}
use go_utility.Response.{
  GoError, joined, missing_route, invalid, error_w, wrapped, with_stack, as_error_w, ErrorMap,
  default_map, err_not_found, err_bad_request, handle_error,
}
use go_utility.Response.Convert.{
  status_of, default_response, found_in, replaced, handle_error-default_map,
}

-- The two orders in which Go may iterate over a map of two handlers.
abbrev up : ErrorMap
up = (pos 400000, err_bad_request) ∷ (pos 404000, err_not_found) ∷ []

abbrev down : ErrorMap
down = (pos 404000, err_not_found) ∷ (pos 400000, err_bad_request) ∷ []

abbrev missing_user : GoError
missing_user = wrapped "find user" (error_w (pos 404001) "user not found")

abbrev no_text : GoError → String
no_text e = ""

same_handlers : (k : ℤ) → lookup_code k up ≡ lookup_code k down
same_handlers k = ground arith

-- A missing route beside an `ErrorW` of a low code, in one error.
abbrev both : GoError
both = joined (error_w (pos 7) "odd") missing_route

both_answered : (handle_error no_text default_map both).http_code ≡ 404
unfolding handle_error default_map
both_answered = refl

handle_error-default_map_example :
    ((c : ℤ) × (msg : String) × (as_error_w both ≡ some (c, msg))
      × (pos 400000 ≤ℤ c)
      × (handle_error no_text default_map both
          ≡ default_response (with_stack (error_w c msg)) c msg))
    ⊎ (((as_error_w both ≡ none)
          ⊎ ((c : ℤ) × (msg : String) × (as_error_w both ≡ some (c, msg)) × (c <ℤ pos 400000)))
        × (handle_error no_text default_map both ≡ replaced no_text (found_in both)))
handle_error-default_map_example = handle_error-default_map no_text both

-- The status of an expired session, by its code.
expired_session : status_of (pos 440003) ≡ 440
unfolding status_of
expired_session = refl

abbrev blank_name : GoError
blank_name = invalid "name: cannot be blank."
