-- ===== src/Tracing.antt =====
-- tracer and loggerw: traces of a request and the log lines about it. Here, what both packages
-- share: the values in a `context.Context`, and those of the fields of a line.
pub mod Frames
pub mod Trace
pub mod Logger
pub mod Middleware
pub mod Counted
pub mod Nesting
pub mod Stack
pub mod Lines
pub mod Correlation
pub mod Report
mod Tests
use go_utility.Base.{ℕ, String, List, [], ◌∷◌, Option, none, some}

-- A context is the list of the values put into it, the last one first. The keys belong to the
-- packages, so that each is told by its constructor; a pointer is an index into the store.
pub data Entry : Type 0 where
  trace_id_key request_id_key : String → Entry
  trace_key span_key : ℕ → Entry
  other : Entry

abbrev pub Context : Type 0
Context = List Entry

pub record SpanRecord : Type 0 where
  pub name : String
  pub depth : ℕ
  pub duration_ms : ℕ
  pub func : String
  pub caller : String
  pub error : String

-- The value of a field.
pub data Field : Type 0 where
  text : String → Field
  number : ℕ → Field
  timeline : List SpanRecord → Field
  stack : List String → Field

abbrev pub Fields : Type 0
Fields = List (String × Field)

-- The `Value` of a context at each of the keys.
abbrev pub trace_id : Context → String
trace_id [] = ""
trace_id (Entry.trace_id_key s ∷ ctx) = s
trace_id (_ ∷ ctx) = trace_id ctx

abbrev pub current_trace : Context → Option ℕ
current_trace [] = none
current_trace (Entry.trace_key i ∷ ctx) = some i
current_trace (_ ∷ ctx) = current_trace ctx

abbrev pub current_span : Context → Option ℕ
current_span [] = none
current_span (Entry.span_key i ∷ ctx) = some i
current_span (_ ∷ ctx) = current_span ctx

abbrev pub get_request_id : Context → String
get_request_id [] = ""
get_request_id (Entry.request_id_key s ∷ ctx) = s
get_request_id (_ ∷ ctx) = get_request_id ctx
