-- ===== src/Http/Gin.antt =====
-- v2/httpw/ginw/gin.go: `ApiWrap` and the middleware of a Gin engine.
use go_utility.Base.{ℕ, String, Bool, false, Option, none, some, List, [], ◌∷◌, ◌++◌, if◌then◌else◌}
use go_utility.Base.Int.{ℤ}
use go_utility.Status.{GoError}
use go_utility.ApiResponse.{BaseResponse, Pagination, success, error_response}
use go_utility.Logw.{Context, inject_log_id, build_log_attributes}
use go_utility.Http.{Result, failed, base, file, other, attachment, File, Reply, Access, limited}

-- What is used of a `gin.Context`: `c.JSON`, `c.Header`, `c.DataFromReader` with its status, which may
-- report errors to `c.Errors`, and `c.Writer.Status()`.
pub record GinContext (D : Type 0) : Type 0 where
  pub json : ℕ → BaseResponse D → Reply D → Reply D
  pub header : String → String → Reply D → Reply D
  pub data_from_reader : ℕ → File D → Reply D → Reply D × List (GoError D)
  pub writer_status : Reply D → ℕ

-- The reply so far, and `c.Errors`.
abbrev pub State : Type 0 → Type 0
State D = Reply D × List (GoError D)

-- `c.Errors.Last()`, `none` where there is no error.
abbrev pub last {ℓ} : {A : Type ℓ} → List A → Option A
last [] = none
last (e ∷ es) = elim (last es) [ none ↦ some e | some e' ↦ some e' ]

module _ {D : Type 0} (text_of : GoError D → String) (gin : GinContext D) where
  -- `ApiWrap`, on what the handler returned.
  unfoldable pub api_wrap : Result D → State D → State D
  unfolding success
  api_wrap (failed err) (r, errors) = (r, errors ++ err ∷ [])
  api_wrap (base v) (r, errors) = (gin.json 200 v r, errors)
  api_wrap (file v) (r, errors) =
      let (r', more) =
        gin.data_from_reader 200 v (gin.header "Content-Disposition" (attachment v.filename) r) in
      (r', errors ++ more)
  api_wrap (other v) (r, errors) = (gin.json 200 (success v "Success") r, errors)

  -- `ErrorHandler` of the configuration: whether it handled the error.
  unfoldable pub handle_error :
      Option (GoError D → Reply D → Reply D × Bool) → GoError D → Reply D → Reply D × Bool
  handle_error none err r = (r, false)
  handle_error (some custom) err r = custom err r

  -- What follows `c.Next()`: the last error is answered.
  unfoldable pub answer_last : Option (GoError D → Reply D → Reply D × Bool) → State D → Reply D
  unfolding error_response handle_error
  answer_last custom (r, errors) = elim (last errors) [
    | none ↦ r
    | some err ↦
        let (r', handled) = handle_error custom err r in
        let (code, payload) = error_response text_of err in
        if handled then r' else gin.json code payload r'
  ]

  -- The middleware of `New`, around the rest of the request.
  unfoldable pub middleware :
      Option (GoError D → Reply D → Reply D × Bool)
      → String
      → Context
      → (Context → State D → State D)
      → State D
      → Reply D × Access
  unfolding answer_last inject_log_id build_log_attributes
  middleware custom fresh ctx next s =
      let ctx' = inject_log_id fresh ctx in
      let r = answer_last custom (next ctx' s) in
      (r, record { attributes = build_log_attributes ctx'; status = some (gin.writer_status r) })

-- `ParsePagination`, on the numbers that Gin binds: 0 for one that is absent or not a number.
unfoldable pub parse_pagination : ℤ → ℤ → Pagination
unfolding limited
parse_pagination page per_page = limited page per_page
