-- ===== src/Http/Echo.antt =====
-- v2/httpw/echow/echo.go: `ApiWrap`, the middleware and the error handler of an Echo server.
use go_utility.Base.{ℕ, String, Option, none, some}
use go_utility.Base.Int.{ℤ}
use go_utility.Status.{GoError}
use go_utility.ApiResponse.{BaseResponse, Pagination, success, error_response}
use go_utility.Logw.{Context, inject_log_id, build_log_attributes}
use go_utility.Http.{
  Result, failed, base, file, other, attachment, Reply, write_header, set_header, copy, Access,
  limited,
}

-- The parameters are the text of an error that is none of statusw's, and Echo's `c.JSON`.
module _ {D : Type 0} (text_of : GoError D → String)
    (json : ℕ → BaseResponse D → Reply D → Reply D × Option (GoError D)) where
  -- `defaultErrorHandler`
  unfoldable pub default_error_handler : GoError D → Reply D → Reply D
  unfolding error_response
  default_error_handler err r =
      let (code, payload) = error_response text_of err in (json code payload r).0

  -- `HTTPErrorHandler`, as `New` sets it.
  unfoldable pub error_handler :
      Option (GoError D → Reply D → Reply D) → GoError D → Reply D → Reply D
  unfolding default_error_handler
  error_handler none = default_error_handler
  error_handler (some custom) = custom

  -- `ApiWrap`, on what the handler returned.
  unfoldable pub api_wrap : Result D → Reply D → Reply D × Option (GoError D)
  unfolding set_header write_header copy success
  api_wrap (failed err) r = (r, some err)
  api_wrap (base v) r = json 200 v r
  api_wrap (file v) r = copy v (
      write_header 200 (
        set_header "Content-Type" v.content_type
          (set_header "Content-Disposition" (attachment v.filename) r)))
  api_wrap (other v) r = json 200 (success v "Success") r

  -- `loggerMiddleware`, around the rest of the request. The error that it returns is always nil.
  unfoldable pub logger_middleware :
      Option (GoError D → Reply D → Reply D)
      → String
      → Context
      → (Context → Reply D → Reply D × Option (GoError D))
      → Reply D
      → Reply D × Access
  unfolding error_handler error_response inject_log_id build_log_attributes
  logger_middleware custom fresh ctx next r =
      let ctx' = inject_log_id fresh ctx in
      let (r', err) = next ctx' r in
      elim err [
        | none ↦ (r', record { attributes = build_log_attributes ctx'; status = some 200 })
        | some e ↦ (
          error_handler custom e r',
          record {
            attributes = build_log_attributes ctx';
            status = some (error_response text_of e).0;
          },
        )
      ]

-- `ParsePagination`, on the numbers that Echo binds: 0 for one that is absent or not a number.
unfoldable pub parse_pagination : ℤ → ℤ → Pagination
unfolding limited
parse_pagination page per_page = limited page per_page
