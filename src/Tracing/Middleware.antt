-- ===== src/Tracing/Middleware.antt =====
-- tracer/echo_middleware.go, tracer/http_transport.go, tracer/loggerw_adapter.go and
-- loggerw/middleware.go: how traces, request identifiers and log lines meet in a request.
use go_utility.Base.{
  ℕ, String, Bool, ◌&&◌, ◌||◌, Option, none, some, List, [], ◌∷◌, ◌++◌, ◌==◌, string_eq, lookup,
  if◌then◌else◌,
}
use go_utility.Tracing.{Entry, Context, Field, Fields, trace_id, get_request_id}
use go_utility.Tracing.Trace.{Store, start_trace, flush}
use go_utility.Tracing.Trace as trace
use go_utility.Tracing.Logger.{
  Level, Logger, Line, ensure_request_id, with_request_id, log, error, with,
}

-- A request: its context, its header X-Request-ID, empty where there is none, and its body with
-- the error of reading it.
pub record Request : Type 0 where
  pub ctx : Context
  pub header : String
  pub method : String
  pub path : String
  pub query : String
  pub body : Option (String × Option String)

-- What a handler works on: the traces, the response's status and header X-Request-ID, the lines
-- logged through loggerw, and those of the function of `SetLogger`.
pub record World : Type 0 where
  pub store : Store
  pub status : ℕ
  pub header : String
  pub lines : List Line
  pub reports : List trace.Line

pub data Outcome : Type 0 where
  returned : Option String → Outcome
  panicked : Outcome

abbrev pub Handler : Type 0
Handler = Request → World → World × Outcome

-- `Inject`, and the header of the request that `RoundTrip` sends.
unfoldable pub inject : Context → String → String
inject ctx header = if trace_id ctx == "" then header else trace_id ctx

abbrev pub with_ctx : Context → Request → Request
with_ctx ctx r = record {
  ctx = ctx;
  header = r.header;
  method = r.method;
  path = r.path;
  query = r.query;
  body = r.body;
}

abbrev pub with_header : String → Request → Request
with_header header r = record {
  ctx = r.ctx;
  header = header;
  method = r.method;
  path = r.path;
  query = r.query;
  body = r.body;
}

abbrev pub respond : Store → String → World → World
respond store header w = record {
  store = store;
  status = w.status;
  header = header;
  lines = w.lines;
  reports = w.reports;
}

-- The error that the deferred `Flush` reads: none is set while a panic goes on.
abbrev pub error_of : Outcome → Option String
error_of (returned err) = err
error_of panicked = none

abbrev pub to_list : Option trace.Line → List trace.Line
to_list none = []
to_list (some l) = l ∷ []

abbrev pub add_reports : Option trace.Line → World → World
add_reports l w = record {
  store = w.store;
  status = w.status;
  header = w.header;
  lines = w.lines;
  reports = w.reports ++ to_list l;
}

abbrev pub incoming : Request → Context
incoming r = if r.header == "" then r.ctx else Entry.trace_id_key r.header ∷ r.ctx

unfoldable pub flushed : ℕ → Context → List String → World × Outcome → World × Outcome
unfolding flush
flushed later ctx stack (w, out) =
    (add_reports (flush later ctx (error_of out) stack w.store) w, out)

-- `tracer.Middleware`, given a fresh trace identifier, the clock before and after, the name of the
-- route and the stack at the end.
unfoldable pub tracing : String → ℕ → ℕ → String → List String → Handler → Handler
unfolding start_trace flushed inject
tracing fresh now later name stack next r w =
    let (ctx, _, s) = start_trace fresh now (incoming r) name w.store in
    flushed later ctx stack (next (with_ctx ctx r) (respond s (inject ctx w.header) w))

abbrev is_bodied : String → Bool
is_bodied m = m == "POST" || (m == "PUT" || (m == "PATCH" || m == "DELETE"))

-- What reading the body leaves: what was read, as the copy to log and as the body of the request.
abbrev pub reread : Option (String × Option String) → Option (String × Option String)
reread none = none
reread (some (b, err)) = some (b, none)

abbrev pub copied : Option (String × Option String) → String
copied (some (b, none)) = b
copied _ = ""

abbrev pub is_logged : Bool → Request → Bool
is_logged log_body r = log_body && is_bodied r.method

abbrev pub with_body : Option (String × Option String) → Request → Request
with_body body r = record {
  ctx = r.ctx;
  header = r.header;
  method = r.method;
  path = r.path;
  query = r.query;
  body = body;
}

abbrev optional : String → String → Fields
optional k s = if s == "" then [] else (k, Field.text s) ∷ []

abbrev pub request_fields : String → Request → String → ℕ → Fields
request_fields latency r body status =
    ("status", Field.number status)
      ∷ ("latency", Field.text latency)
      ∷ ("method", Field.text r.method)
      ∷ ("path", Field.text r.path)
      ∷ optional "query" r.query
    ++ optional "body" body

abbrev pub add_lines : List Line → World → World
add_lines ls w = record {
  store = w.store;
  status = w.status;
  header = w.header;
  lines = w.lines ++ ls;
  reports = w.reports;
}

module _ (stack : ℕ → List String) (l : Logger) where
  unfoldable pub read_failure : String → Context → Option (String × Option String) → List Line
  unfolding error
  read_failure fresh ctx (some (b, some e)) =
      elim (error fresh stack ctx (some e) "read request body failed" l) [
        | none ↦ []
        | some x ↦ x ∷ []
      ]
  read_failure fresh ctx _ = []

  unfoldable pub logged :
      String → Context → Request → String → String → World × Outcome → World × Outcome
  unfolding log with
  logged fresh ctx r latency body (w, panicked) = (w, panicked)
  logged fresh ctx r latency body (w, returned err) = (
    add_lines
        (log Level.info_level fresh stack ctx "http_request"
            (with fresh stack ctx (request_fields latency r body w.status) l)
          ∷ [])
        w,
    returned err,
  )

  -- `LoggerWithRequestID`, given a fresh request identifier and the time that the handler took.
  unfoldable pub logging : String → Bool → String → Handler → Handler
  unfolding ensure_request_id read_failure logged
  logging fresh log_body latency next r w =
      let (ctx, rid) = ensure_request_id fresh r.ctx in
      let r₁ = with_header rid (with_ctx ctx r) in
      let w₁ = respond w.store rid w in
      if is_logged log_body r
      then logged fresh ctx r₁ latency (copied r.body)
          (next (with_body (reread r.body) r₁) (add_lines (read_failure fresh ctx r.body) w₁))
      else logged fresh ctx r₁ latency "" (next r₁ w₁)

  abbrev pub aligned : Context → Context
  aligned ctx =
      if get_request_id ctx == ""
      then (if trace_id ctx == "" then ctx else with_request_id ctx (trace_id ctx))
      else ctx

  abbrev pub error_text : Option Field → String → String
  error_text (some (Field.text s)) msg = if s == "" then msg else s
  error_text _ msg = msg

  -- The function that `WireLogger` gives to `SetLogger`, of a line of `Flush`; `With` and the line
  -- itself each have an identifier of their own to fall back on.
  unfoldable pub wire : String → String → Context → trace.Line → Option Line
  unfolding log error with
  wire fresh later ctx x =
      let c = aligned ctx in
      let ll = with fresh stack c x.fields l in
      if x.level == "error"
      then error later stack c (some (error_text (lookup "handler_error" x.fields) x.message))
          x.message ll
      else some (
          log
            (if x.level == "warn"
              then Level.warn_level
              else (if x.level == "debug" then Level.debug_level else Level.info_level))
            later stack c x.message ll)
