-- ===== src/Http/Tests.antt =====
-- Runs of the HTTP adapters, and an example of each result about them.
use go_utility.Base.{
  ℕ, ◌<◌, ◌≤◌, String, ◌≡◌, refl, sym, ap, ◌∙◌, true, false, Option, none, some, Option-cases, inl,
  inr, List, [], ◌∷◌, ◌++◌, map, append-nil, arith,
}
use go_utility.Base.Int.{pos, ltb_ℤ, to_int64, ◌*ℤ◌, ◌-ℤ◌}
use go_utility.Base.Text.{itoa, codes}
use go_utility.Status.{GoError, plain, status, nil}
use go_utility.ApiResponse.{BaseResponse, error_response, get_offset}
use go_utility.Http.{
  failed, file, File, Part, encoded, byte, Reply, has_body, is_informational, written, write_header,
  write_parts, set_header, status_seen, attachment, disposition, limited,
}
use go_utility.Http.Echo as echo
use go_utility.Http.Gin.{GinContext}
use go_utility.Http.Gin as gin
use go_utility.Http.Mux as mux
use go_utility.Http.View.{view, SendsJson, via_echo, via_mux}
use go_utility.Http.Answers.{final_status}
use go_utility.Http.Cut.{cut_file}
use go_utility.Http.Paging.{walk, parse_pagination-walk}

abbrev text : GoError ℕ → String
text (plain m) = m
text _ = "error"

-- A framework over net/http.
abbrev send : ℕ → BaseResponse ℕ → Reply ℕ → Reply ℕ
unfolding write_header write_parts
send n b r = write_parts (encoded b ∷ []) (write_header n r)

abbrev send_echo : ℕ → BaseResponse ℕ → Reply ℕ → Reply ℕ × Option (GoError ℕ)
unfolding send
send_echo n b r = (send n b r, none)

abbrev a_gin : GinContext ℕ
unfolding send write_header write_parts set_header status_seen
a_gin = record {
  json = send;
  header = set_header;
  data_from_reader = λ n f r. (
    write_parts (map byte f.content) (write_header n (set_header "Content-Type" f.content_type r)),
    [],
  );
  writer_status = status_seen;
}

report : File ℕ
report = record {
  filename = "a.csv";
  content_type = "text/csv";
  content = 65 ∷ 66 ∷ [];
  stream_error = none;
}

sent_parts :
    (parts : List (Part ℕ)) (r : Reply ℕ) (m : ℕ)
    → r.status ≡ some m
    → has_body m ≡ true
    → ((write_parts parts r).status ≡ some m)
      × ((write_parts parts r).body ≡ r.body ++ parts)
      × (disposition (write_parts parts r) ≡ disposition r)
unfolding write_parts disposition
sent_parts [] r m h ok = (h, sym (append-nil r.body), refl)
sent_parts (p ∷ parts) r m h ok = ground arith

with_status :
    (n : ℕ) (r : Reply ℕ)
    → has_body (written n r.status) ≡ true
    → ((write_header n r).status ≡ some (written n r.status))
      × ((write_header n r).body ≡ r.body)
      × (disposition (write_header n r) ≡ disposition r)
unfolding write_header disposition
with_status n r ok = elim (Option-cases (r.status)) [
  | inl fresh ↦
      let final = final_status n (rw fresh at ok) in
      rw (write_header, fresh, final) (refl, refl, refl)
  | inr (m, sent) ↦ rw (write_header, sent) (sent, refl, refl)
]

send-SendsJson : SendsJson send
unfolding send
send-SendsJson n b r ok =
    let w = with_status n r ok in
    let s = sent_parts (encoded b ∷ []) (write_header n r) (written n r.status) w.0 ok in
    (s.0, s.1 ∙ ap (λ body. body ++ encoded b ∷ []) w.1, s.2 ∙ w.2)

-- A request that fails with a status error, and one for a file.
missing :
    (via_mux text "id" []
      (failed (status (pos 404001) "USER-404" "User not found" nil none))).0.status
    ≡ some 404
unfolding mux.logger_middleware mux.api_wrap write_header write_parts set_header error_response
    is_informational
missing = refl

-- A custom handler of Gin that only looks at the error leaves the answer to the middleware.
looked_at :
    status_seen
      (gin.middleware text a_gin
        (some (λ e r. (r, false)))
        "id"
        []
        (λ ctx s. gin.api_wrap text a_gin (failed (plain "x")) s)
        (record { status = none; headers = []; body = [] }, [])).0
    ≡ 500
unfolding gin.middleware gin.api_wrap gin.answer_last gin.handle_error send status_seen
    error_response write_header write_parts a_gin is_informational
looked_at = refl

-- Mux's `Atoi` gives the largest int for a page number that is out of range.
far_page :
    mux.parse_pagination (codes "99999999999999999999") (codes "20")
    ≡ record { page = pos 9223372036854775807; per_page = pos 20 }
unfolding mux.parse_pagination mux.atoi_value mux.parse_uint limited
far_page = refl

-- The offset of such a page has wrapped around.
far_offset : ltb_ℤ (get_offset (limited (pos 922337203685477581) (pos 20))) (pos 0) ≡ true
unfolding limited get_offset to_int64 ◌*ℤ◌ ◌-ℤ◌
far_offset = refl

abbrev cut_report : File ℕ
cut_report = record {
  filename = "a.csv";
  content_type = "text/csv";
  content = 65 ∷ [];
  stream_error = some (plain "disk");
}

cut_file_example :
    (view (via_mux text "id" [] (file cut_report)).0
      ≡ (200, byte 65 ∷ [], some (attachment "a.csv")))
    × (view (via_echo text "id" [] send_echo (file cut_report)).0 ≡ (
      200,
      byte 65 ∷ encoded (error_response text (plain "disk")).1 ∷ [],
      some (attachment "a.csv"),
    ))
    × ((via_echo text "id" [] send_echo (file cut_report)).1.status
        ≡ some (error_response text (plain "disk")).0)
unfolding send
cut_file_example = cut_file text "id" [] send_echo cut_report (plain "disk") send-SendsJson refl

abbrev rows : List ℕ
rows = 1 ∷ 2 ∷ 3 ∷ 4 ∷ 5 ∷ []

parse_pagination-walk_example :
    (walk (λ p. echo.parse_pagination (pos p) (pos 2)) 2 rows ≡ 1 ∷ 2 ∷ 3 ∷ 4 ∷ [])
    × (walk (λ p. gin.parse_pagination (pos p) (pos 2)) 2 rows ≡ 1 ∷ 2 ∷ 3 ∷ 4 ∷ [])
    × (walk (λ p. mux.parse_pagination (itoa p) (itoa 2)) 2 rows ≡ 1 ∷ 2 ∷ 3 ∷ 4 ∷ [])
    × (0 < 2)
    × (2 ≤ 100)
parse_pagination-walk_example = parse_pagination-walk 2 2 rows (omega arith) (omega arith)
