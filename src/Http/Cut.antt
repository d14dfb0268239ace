-- ===== src/Http/Cut.antt =====
-- httpw: files whose reader fails.
use go_utility.Base.{ℕ, String, ◌≡◌, refl, ap, ◌∙◌, Option, some, List, [], ◌∷◌, ◌++◌, map, arith}
use go_utility.Status.{GoError}
use go_utility.ApiResponse.{BaseResponse, error_response}
use go_utility.Logw.{Context}
use go_utility.Http.{
  file, File, Part, encoded, byte, Reply, fresh_reply, written, has_body, is_informational,
  write_header, write_parts, set_header, copy, status_seen, disposition, attachment,
}
use go_utility.Http.Echo as echo
use go_utility.Http.View.{view, expected, SendsJson, copied_view, copy_told, via_echo, via_mux}
use go_utility.Http.Answers.{echo_failed, mux_answer}

-- What a reply is seen as after a response in JSON is sent.
appended :
    {D : Type 0} (n : ℕ) (r r' : Reply D) (b : BaseResponse D) {parts : List (Part D)}
    {name : Option String}
    → (r'.status ≡ some (written n r.status))
      × (r'.body ≡ r.body ++ encoded b ∷ [])
      × (disposition r' ≡ disposition r)
    → r.status ≡ some 200
    → r.body ≡ parts
    → disposition r ≡ name
    → view r' ≡ (200, parts ++ encoded b ∷ [], name)
unfolding view status_seen
appended n r r' b h s p d = ground (arith, h.0, h.1, h.2)

copied_status :
    {D : Type 0} (parts : List (Part D)) (r : Reply D)
    → r.status ≡ some 200
    → (write_parts parts r).status ≡ some 200
unfolding write_parts
copied_status [] r h = h
copied_status (p ∷ parts) r h = ground arith

-- A file whose reader fails after some bytes: under Mux the client gets status 200, the file's name and
-- those bytes. Under Echo it gets the same status and name, but the error's JSON after the bytes, while
-- the line that is logged has the error's status. No error handler is configured.
pub cut_file :
    {D : Type 0} (text_of : GoError D → String) (fresh : String) (ctx : Context)
    (json : ℕ → BaseResponse D → Reply D → Reply D × Option (GoError D)) (v : File D)
    (err : GoError D)
    → SendsJson (λ n b r. (json n b r).0)
    → v.stream_error ≡ some err
    → (view (via_mux text_of fresh ctx (file v)).0
        ≡ (200, map byte v.content, some (attachment v.filename)))
      × (view (via_echo text_of fresh ctx json (file v)).0 ≡ (
        200,
        map byte v.content ++ encoded (error_response text_of err).1 ∷ [],
        some (attachment v.filename),
      ))
      × ((via_echo text_of fresh ctx json (file v)).1.status ≡ some (error_response text_of err).0)
unfolding echo.api_wrap expected copy set_header write_header view status_seen disposition has_body
    is_informational
cut_file text_of fresh ctx json v err sends broken =
    let (code, payload) = error_response text_of err in
    let before = write_header 200 (
      set_header "Content-Type" v.content_type
        (set_header "Content-Disposition" (attachment v.filename) fresh_reply)) in
    let sent = write_parts (map byte v.content) before in
    let h =
      sends code payload sent
        (ap (λ o. has_body (written code o)) (copied_status (map byte v.content) before refl)) in
    let c = copied_view (map byte v.content) before refl refl in
    let e =
      echo_failed text_of fresh ctx json (λ ctx' r. echo.api_wrap text_of json (file v) r) err
        (copy_told v before refl ∙ broken) in
    (
      mux_answer text_of fresh ctx (file v) refl,
      ap view e.0
          ∙ appended code sent (json code payload sent).0 payload h
              (copied_status (map byte v.content) before refl) (ap (λ v. v.1) c) (ap (λ v. v.2) c),
      e.1,
    )
