-- ===== src/ApiResponse/Tests.antt =====
-- Runs of response.go, and an example of each result about it.
use go_utility.Base.{
  ℕ, ◌+◌, ◌*◌, ◌^◌, true, ◌≡◌, ◌≢◌, refl, ◌↔◌, some, List, [], ◌∷◌, length, if◌then◌else◌, leb,
  arith,
}
use go_utility.Base.Int.{pos}
use go_utility.Status.{GoError, wrapped, status, nil}
use go_utility.ApiResponse.{value, custom, http_status, error_response, page_response}
use go_utility.ApiResponse.HttpStatus.{http_status_prefix}
use go_utility.ApiResponse.Pages.{has_next, page_at, shown, has_next-shown}

abbrev no_user : GoError ℕ
no_user = wrapped "load" (status (pos 404001) "USER-404" "User not found" nil (some 7))

no_user_response : error_response (λ e. "") no_user ≡ (
  404,
  record {
    status_code = 1;
    message = "Error occurred";
    error = some (record { code = custom "USER-404"; details = "User not found" });
    data_of = value 7;
  },
)
unfolding error_response
no_user_response = refl

http_status_prefix_example :
    http_status (pos (404 * 10 ^ 3 + 1)) ≡ (if leb 404 599 then 404 else 500)
http_status_prefix_example = http_status_prefix 3 404 1 (omega arith) (omega arith) (omega arith)

-- Five rows in pages of two: the second page has a next one.
abbrev rows : List ℕ
rows = 10 ∷ 11 ∷ 12 ∷ 13 ∷ 14 ∷ []

has_next-shown_example :
    (has_next (page_response (page_at 1 2) (some rows) (pos (length rows)) "") ≡ true)
    ↔ (shown (page_at 2 2) rows ≢ [])
has_next-shown_example = has_next-shown 1 2 rows (some rows) "" (omega arith) (omega arith)
