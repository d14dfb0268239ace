-- ===== src/Http/View.antt =====
-- httpw: what a client sees of a reply, and requests under each of the three frameworks.
use go_utility.Base.{
  ℕ, String, ◌≡◌, refl, true, Option, none, some, List, [], ◌∷◌, ◌++◌, map, arith,
}
use go_utility.Status.{GoError}
use go_utility.ApiResponse.{BaseResponse, success, error_response}
use go_utility.Logw.{Context}
use go_utility.Http.{
  Result, failed, base, file, other, File, Part, encoded, byte, Reply, fresh_reply, written,
  has_body, write_parts, refusal, copy, set_header, status_seen, disposition, attachment, Access,
}
use go_utility.Http.Echo as echo
use go_utility.Http.Gin.{GinContext, last}
use go_utility.Http.Gin as gin
use go_utility.Http.Mux as mux

-- What the client sees of a reply: its status, its body and the name of the file.
abbrev pub View : Type 0 → Type 0
View D = ℕ × List (Part D) × Option String

unfoldable pub view : {D : Type 0} → Reply D → View D
unfolding status_seen disposition
view r = (status_seen r, r.body, disposition r)

-- The view that a result asks for: an error's response with its status, or 200 with the response that
-- was returned, with the file, or with the data in a successful response.
unfoldable pub expected : {D : Type 0} → (GoError D → String) → Result D → View D
unfolding error_response success
expected text_of (failed err) =
    ((error_response text_of err).0, encoded (error_response text_of err).1 ∷ [], none)
expected text_of (base v) = (200, encoded v ∷ [], none)
expected text_of (file v) = (200, map byte v.content, some (attachment v.filename))
expected text_of (other v) = (200, encoded (success v "Success") ∷ [], none)

-- The error of a file's reader.
abbrev pub stream_error_of : {D : Type 0} → Result D → Option (GoError D)
stream_error_of (file v) = v.stream_error
stream_error_of _ = none

-- A function that sends a response with a status: the first status stands, which is one whose answer has a
-- body, and the name of a file stays.
abbrev pub SendsJson : {D : Type 0} → (ℕ → BaseResponse D → Reply D → Reply D) → Type 0
SendsJson {D} send =
    (n : ℕ) (b : BaseResponse D) (r : Reply D)
    → has_body (written n r.status) ≡ true
    → ((send n b r).status ≡ some (written n r.status))
      × ((send n b r).body ≡ r.body ++ encoded b ∷ [])
      × (disposition (send n b r) ≡ disposition r)

pub sent_view :
    {D : Type 0} (send : ℕ → BaseResponse D → Reply D → Reply D)
    → SendsJson send
    → (n : ℕ) (b : BaseResponse D) → has_body n ≡ true
    → view (send n b fresh_reply) ≡ (n, encoded b ∷ [], none)
unfolding view status_seen disposition
sent_view send law n b ok = let h = law n b fresh_reply ok in ground (arith, h.0, h.1, h.2)

not_refused :
    {D : Type 0} (parts : List (Part D)) (r : Reply D)
    → has_body (written 200 r.status) ≡ true
    → refusal parts r ≡ none
unfolding refusal
not_refused [] r ok = refl
not_refused (p ∷ parts) r ok = rw (ok) refl

pub copy_told :
    {D : Type 0} (f : File D) (r : Reply D)
    → has_body (written 200 r.status) ≡ true
    → (copy f r).1 ≡ f.stream_error
unfolding copy
copy_told f r ok = rw (copy, not_refused (map byte f.content) r ok) refl

-- Gin's functions do what they are documented to do: `Header` sets the header of a file, whose value is not
-- empty, `DataFromReader` sends a status and all that a reader without an error gives, and `Status` tells the
-- status, which is 200 where none was set.
pub record IsGin {D : Type 0} (g : GinContext D) : Type 0 where
  pub json_sends : SendsJson g.json
  pub header_sets :
      (name : String) (r : Reply D)
      → g.header "Content-Disposition" (attachment name) r
        ≡ set_header "Content-Disposition" (attachment name) r
  pub reader_sends :
      (n : ℕ) (f : File D) (r : Reply D)
      → f.stream_error ≡ none
      → has_body (written n r.status) ≡ true
      → ((g.data_from_reader n f r).0.status ≡ some (written n r.status))
        × ((g.data_from_reader n f r).0.body ≡ r.body ++ map byte f.content)
        × (disposition (g.data_from_reader n f r).0 ≡ disposition r)
        × ((g.data_from_reader n f r).1 ≡ [])
  pub status_told : (r : Reply D) → g.writer_status r ≡ status_seen r

pub copied_view :
    {D : Type 0} (parts : List (Part D)) (r : Reply D)
    → r.status ≡ some 200
    → r.body ≡ []
    → view (write_parts parts r) ≡ (200, parts, disposition r)
unfolding view write_parts status_seen disposition has_body
copied_view [] r h e = ground arith
copied_view (p ∷ parts) r h e = ground arith

pub bare_view :
    {D : Type 0} (parts : List (Part D)) (r : Reply D)
    → r.status ≡ none
    → r.body ≡ []
    → view (write_parts parts r) ≡ (200, parts, disposition r)
unfolding view write_parts status_seen disposition has_body
bare_view [] r h e = ground arith
bare_view (p ∷ parts) r h e = ground arith

module _ {D : Type 0} (text_of : GoError D → String) (fresh : String) (ctx : Context) where
  -- Requests for a route of each framework, with no error handler of the user's.
  abbrev pub via_echo :
      (ℕ → BaseResponse D → Reply D → Reply D × Option (GoError D)) → Result D → Reply D × Access
  via_echo json res =
      echo.logger_middleware text_of json none fresh ctx
        (λ ctx' r. echo.api_wrap text_of json res r) fresh_reply

  abbrev pub via_gin : GinContext D → Result D → Reply D × Access
  via_gin g res =
      gin.middleware text_of g none fresh ctx (λ ctx' s. gin.api_wrap text_of g res s)
        (fresh_reply, [])

  abbrev pub via_mux : Result D → Reply D × Access
  via_mux res =
      mux.logger_middleware text_of fresh ctx (λ ctx' r. mux.api_wrap text_of none res r)
        fresh_reply
