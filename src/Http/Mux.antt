-- ===== src/Http/Mux.antt =====
-- v2/httpw/muxw/mux.go: `ApiWrap` and the middleware of a Gorilla Mux router.
use go_utility.Base.{
  ℕ, ◌+◌, ◌-◌, ◌*◌, String, ◌&&◌, Option, none, some, List, [], ◌∷◌, if◌then◌else◌, ltb, leb,
  nat_beq,
}
use go_utility.Base.Int.{ℤ, pos, sub_ℕ}
use go_utility.Status.{GoError}
use go_utility.ApiResponse.{Pagination, success, error_response}
use go_utility.Logw.{Context, inject_log_id, build_log_attributes}
use go_utility.Http.{
  Result, failed, base, file, other, attachment, Reply, write_header, set_header, encode, copy,
  Access, limited,
}

-- The text of an error that is none of statusw's is a parameter.
module _ {D : Type 0} (text_of : GoError D → String) where
  -- `ApiWrap`, on what the handler returned, with `globalErrorHandler`.
  unfoldable pub api_wrap : Option (GoError D → Reply D → Reply D) → Result D → Reply D → Reply D
  unfolding set_header write_header encode copy success error_response
  api_wrap (some custom) (failed err) r = custom err r
  api_wrap none (failed err) r =
      let (code, payload) = error_response text_of err in
      encode payload (write_header code (set_header "Content-Type" "application/json" r))
  api_wrap custom (base v) r =
      encode v (write_header 200 (set_header "Content-Type" "application/json" r))
  api_wrap custom (file v) r =
      (copy v (
        set_header "Content-Type" v.content_type
          (set_header "Content-Disposition" (attachment v.filename) r))).0
  api_wrap custom (other v) r =
      encode (success v "Success") (set_header "Content-Type" "application/json" r)

  -- `loggerMiddleware`, around the rest of the request.
  unfoldable pub logger_middleware :
      String → Context → (Context → Reply D → Reply D) → Reply D → Reply D × Access
  unfolding inject_log_id build_log_attributes
  logger_middleware fresh ctx next r =
      let ctx' = inject_log_id fresh ctx in
      (next ctx' r, record { attributes = build_log_attributes ctx'; status = none })

-- The digits of `strconv.ParseUint`: a value that no uint64 holds is the largest one, and what is not a
-- digit is a syntax error.
unfoldable pub parse_uint : ℕ → List ℕ → Option ℕ
parse_uint acc [] = some acc
parse_uint acc (c ∷ s) =
    let next = acc * 10 + (c - b'0') in
    let rest = parse_uint next s in
    if leb b'0' c && leb c b'9'
    then (if ltb next 18446744073709551616 then rest else some 18446744073709551615)
    else none

abbrev parse_digits : List ℕ → Option ℕ
parse_digits [] = none
parse_digits (c ∷ s) = parse_uint 0 (c ∷ s)

-- The value of `strconv.Atoi`, whatever the error: the nearest int of a number out of range, else 0.
unfoldable pub atoi_value : List ℕ → ℤ
unfolding parse_uint
atoi_value [] = pos 0
atoi_value (c ∷ s) =
    if nat_beq c b'-'
    then (elim (parse_digits s) [
      | none ↦ pos 0
      | some n ↦ sub_ℕ 0 (if leb n 9223372036854775808 then n else 9223372036854775808)
    ])
    else (elim (if nat_beq c b'+' then parse_digits s else parse_uint 0 (c ∷ s)) [
      | none ↦ pos 0
      | some n ↦ pos (if ltb n 9223372036854775808 then n else 9223372036854775807)
    ])

-- `ParsePagination`, on the texts of the two parameters of the query.
unfoldable pub parse_pagination : List ℕ → List ℕ → Pagination
unfolding atoi_value limited
parse_pagination page per_page = limited (atoi_value page) (atoi_value per_page)
