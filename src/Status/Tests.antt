-- ===== src/Status/Tests.antt =====
-- Runs of status.go, and an example of each result about it.
use go_utility.Base.{ℕ, some, List, [], ◌∷◌, ◌≡◌, refl, get_elem?}
use go_utility.Base.Int.{pos}
use go_utility.Status.{plain, StatusError, Field, text, template, templates, to_response}
use go_utility.Status.Copies.{
  Change, custom_message, custom_code, error, payload, chain, Extends, Extends-chain,
}

abbrev not_found : StatusError ℕ
not_found = template (pos 404000) "NOT_FOUND" "Resource not found"

abbrev changes : List (Change ℕ)
changes =
    custom_message "User not found"
    ∷ custom_code "USER-404"
    ∷ error (plain "no rows")
    ∷ payload (some 7)
    ∷ []

abbrev user_not_found : StatusError ℕ
user_not_found = record {
  logical_code = pos 404000;
  custom_code = "USER-404";
  message = "User not found";
  cause = plain "no rows";
  data_of = some 7;
}

user_response :
    to_response user_not_found
    ≡ ("code", text "USER-404")
      ∷ ("message", text "User not found")
      ∷ ("data", Field.payload 7)
      ∷ []
unfolding to_response
user_response = refl

has_not_found : get_elem? templates 2 ≡ some not_found
unfolding templates
has_not_found = refl

Extends-chain_example :
    (store : List (StatusError ℕ)) × (q : ℕ) × (chain changes 2 templates ≡ some (store, q))
    × Extends templates store q user_not_found
Extends-chain_example = Extends-chain changes 2 templates not_found has_not_found
