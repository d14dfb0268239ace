-- ===== src/Http.antt =====
-- v2/httpw: what the three adapters of HTTP frameworks share, which is the reply of net/http and the
-- values that a handler returns.
pub mod Echo
pub mod Gin
pub mod Mux
pub mod View
pub mod Answers
pub mod Cut
pub mod Paging
mod Tests
use go_utility.Base.{
  ℕ, String, str_append, Bool, true, false, Option, none, some, List, [], ◌∷◌, ◌++◌, map, ◌==◌,
  string_eq, nat_eq, if◌then◌else◌, ◌&&◌, not, leb,
}
use go_utility.Base.Int.{ℤ, pos, leb_ℤ, ltb_ℤ}
use go_utility.Status.{GoError, plain}
use go_utility.ApiResponse.{BaseResponse, Pagination}

-- `FileResponse`: its reader gives the content, and then an error or the end.
pub record File (D : Type 0) : Type 0 where
  pub filename : String
  pub content_type : String
  pub content : List ℕ
  pub stream_error : Option (GoError D)

-- What `Handle` returns: an error, or the dynamic type of its data.
pub data Result (D : Type 0) : Type 0 where
  failed : GoError D → Result D
  base : BaseResponse D → Result D
  file : File D → Result D
  other : Option D → Result D

-- The bytes of a body: a response in JSON, or a byte of a file.
pub data Part (D : Type 0) : Type 0 where
  encoded : BaseResponse D → Part D
  byte : ℕ → Part D

-- An `http.ResponseWriter`: the status once it is written, the headers, the last one first, and the body.
pub record Reply (D : Type 0) : Type 0 where
  pub status : Option ℕ
  pub headers : List (String × String)
  pub body : List (Part D)

abbrev pub find_header : String → List (String × String) → Option String
find_header key [] = none
find_header key ((k, v) ∷ headers) =
    let rest = find_header key headers in if key == k then some v else rest

-- The header of a file under the name.
abbrev pub attachment : String → String
attachment name = str_append "attachment; filename=" name

-- The first status stands.
abbrev pub written : ℕ → Option ℕ → ℕ
written n none = n
written n (some m) = m

-- The statuses of net/http that come before the answer's.
unfoldable pub is_informational : ℕ → Bool
is_informational n = leb 100 n && leb n 199 && not (n == 101)

-- A status that can be an answer's and whose answer has a body.
unfoldable pub has_body : ℕ → Bool
has_body n = leb 200 n && leb n 999 && not (n == 204) && not (n == 304)

module _ {D : Type 0} where
  abbrev pub fresh_reply : Reply D
  fresh_reply = record { status = none; headers = []; body = [] }

  -- `w.WriteHeader(n)`, of a status from 100 to 999: an informational one is not the answer's status.
  unfoldable pub write_header : ℕ → Reply D → Reply D
  write_header n r = elim (r.status) [
    | none ↦
        if is_informational n
        then r
        else record { status = some n; headers = r.headers; body = r.body }
    | some m ↦ r
  ]

  -- `w.Header().Set(key, value)`, which does nothing after the status is written.
  unfoldable pub set_header : String → String → Reply D → Reply D
  set_header key value r = elim (r.status) [
    | none ↦ record { status = none; headers = (key, value) ∷ r.headers; body = r.body }
    | some n ↦ r
  ]

  -- `w.Write` of at least one byte: it writes the status 200 first where there is none, and no byte where
  -- the status has no body.
  unfoldable pub write_parts : List (Part D) → Reply D → Reply D
  write_parts [] r = r
  write_parts (p ∷ parts) r = record {
    status = some (written 200 r.status);
    headers = r.headers;
    body = if has_body (written 200 r.status) then r.body ++ p ∷ parts else r.body;
  }

  -- `json.NewEncoder(w).Encode(b)`
  abbrev pub encode : BaseResponse D → Reply D → Reply D
  unfolding write_parts
  encode b r = write_parts (encoded b ∷ []) r

  -- The error of that `w.Write`.
  unfoldable pub refusal : List (Part D) → Reply D → Option (GoError D)
  refusal [] r = none
  refusal (p ∷ parts) r =
      if has_body (written 200 r.status)
      then none
      else some (plain "http: request method or response status code does not allow body")

  -- `io.Copy(w, reader)`: the error of a write, or that of the reader.
  unfoldable pub copy : File D → Reply D → Reply D × Option (GoError D)
  copy f r = (
    write_parts (map byte f.content) r,
    elim (refusal (map byte f.content) r) [ none ↦ f.stream_error | some err ↦ some err ],
  )

  -- The status that the client sees once the server is done with the request.
  unfoldable pub status_seen : Reply D → ℕ
  status_seen r = written 200 r.status

  -- The name under which the client keeps the body, if it is told to.
  unfoldable pub disposition : Reply D → Option String
  disposition r = find_header "Content-Disposition" r.headers

-- The line that a middleware logs: its attributes, and the status in it, which mux has not.
pub record Access : Type 0 where
  pub attributes : List (String × String)
  pub status : Option ℕ

-- The limits of `ParsePagination`, on the two numbers that it reads.
unfoldable pub limited : ℤ → ℤ → Pagination
limited page per_page =
    let size = if leb_ℤ per_page (pos 0) then pos 10 else per_page in
    record {
      page = if leb_ℤ page (pos 0) then pos 1 else page;
      per_page = if ltb_ℤ (pos 100) size then pos 100 else size;
    }
