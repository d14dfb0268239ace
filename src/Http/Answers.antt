-- ===== src/Http/Answers.antt =====
-- httpw: what a request for a route bound by `Bind` is answered under each of the three frameworks.
use go_utility.Base.{ℕ, String, ◌≡◌, refl, true, false, Option, none, some, [], ◌∷◌, map, arith}
use go_utility.Status.{GoError}
use go_utility.ApiResponse.{BaseResponse, error_response}
use go_utility.Logw.{Context, inject_log_id}
use go_utility.Http.{
  Result, failed, base, file, other, has_body, is_informational, encoded, byte, Reply, fresh_reply,
  write_header, write_parts, set_header, encode, copy, status_seen, disposition, attachment,
}
use go_utility.Http.Echo as echo
use go_utility.Http.Gin.{last}
use go_utility.Http.Gin as gin
use go_utility.Http.Mux as mux
use go_utility.Http.View.{View, view, expected, bare_view, via_mux}

pub final_status : (n : ℕ) → has_body n ≡ true → is_informational n ≡ false
unfolding has_body is_informational
final_status n ok = ground arith

-- A response that Mux writes after its status.
failed_reply :
    {D : Type 0} (n : ℕ) (b : BaseResponse D)
    → has_body n ≡ true
    → view (encode b (write_header n (set_header "Content-Type" "application/json" fresh_reply)))
      ≡ (n, encoded b ∷ [], none)
unfolding view status_seen disposition set_header write_header encode write_parts
failed_reply n b ok = rw (final_status n ok, ok) refl

module _ {D : Type 0} (text_of : GoError D → String) (fresh : String) (ctx : Context) where
  -- Echo's middleware, when the rest of the request returns an error.
  pub echo_failed :
      (json : ℕ → BaseResponse D → Reply D → Reply D × Option (GoError D))
      (next : Context → Reply D → Reply D × Option (GoError D)) (err : GoError D)
      → (next (inject_log_id fresh ctx) fresh_reply).1 ≡ some err
      → let p = echo.logger_middleware text_of json none fresh ctx next fresh_reply in
        let answer = error_response text_of err in
        (p.0 ≡ (json answer.0 answer.1 (next (inject_log_id fresh ctx) fresh_reply).0).0)
        × (p.1.status ≡ some answer.0)
  unfolding echo.logger_middleware echo.default_error_handler echo.error_handler
  echo_failed json next err h =
      (rw (echo.logger_middleware, h) refl, rw (echo.logger_middleware, h) refl)

  pub mux_answer :
      (res : Result D)
      → has_body (expected text_of res).0 ≡ true
      → view (via_mux text_of fresh ctx res).0 ≡ expected text_of res
  unfolding mux.logger_middleware mux.api_wrap view status_seen disposition expected set_header
      write_header encode write_parts copy has_body is_informational
  mux_answer (failed err) ok =
      failed_reply (error_response text_of err).0 (error_response text_of err).1 ok
  mux_answer (base v) ok = refl
  mux_answer (file v) ok =
      bare_view (map byte v.content)
        (set_header "Content-Type" v.content_type
          (set_header "Content-Disposition" (attachment v.filename) fresh_reply))
        refl refl
  mux_answer (other v) ok = refl
