-- ===== src/Tracing/Trace.antt =====
-- tracer/trace.go. Traces and spans are objects of a store; the clock, which is monotonic, and the
-- fresh identifiers are arguments, and so is what `runtime` tells of the caller.
use go_utility.Base.{
  ℕ, zero, suc, ◌+◌, ◌-◌, ◌/◌, String, Option, none, some, List, [], ◌∷◌, ◌++◌, ◌==◌, string_eq,
  length, get_elem?, ltb, if◌then◌else◌,
}
use go_utility.Tracing.{
  Entry, Context, SpanRecord, Field, Fields, trace_id, current_trace, current_span,
}
use go_utility.Tracing.Frames.{Frame, has, walk, at_least_one}
use go_utility.Base.Text.{codes}

pub record Trace : Type 0 where
  pub trace_id : String
  pub name : String
  pub start : ℕ
  pub timeline : List SpanRecord
  pub err_cnt : ℕ

-- A span that `StartSpan` did not make has no trace.
pub record Span : Type 0 where
  pub trace : Option ℕ
  pub name : String
  pub depth : ℕ
  pub func : String
  pub caller : String
  pub start : ℕ
  pub failed : String

pub record Store : Type 0 where
  pub traces : List Trace
  pub spans : List Span

module _ {A : Type 0} where
  abbrev pub modify : List A → ℕ → (A → A) → List A
  modify [] i f = []
  modify (x ∷ xs) zero f = f x ∷ xs
  modify (x ∷ xs) (suc i) f = x ∷ modify xs i f

abbrev pub with_trace_id : String → Context → Context
with_trace_id fresh ctx = if trace_id ctx == "" then Entry.trace_id_key fresh ∷ ctx else ctx

unfoldable pub start_trace : String → ℕ → Context → String → Store → Context × ℕ × Store
start_trace fresh now ctx name s = (
  Entry.trace_key (length s.traces) ∷ with_trace_id fresh ctx,
  length s.traces,
  record {
    traces =
        s.traces
        ++ record {
          trace_id = trace_id (with_trace_id fresh ctx);
          name = name;
          start = now;
          timeline = [];
          err_cnt = 0;
        }
          ∷ [];
    spans = s.spans;
  },
)

-- The context's trace, else one that is started for the span.
unfoldable pub trace_for : String → ℕ → Context → Store → Context × ℕ × Store
unfolding start_trace
trace_for fresh now ctx s = elim (current_trace ctx) [
  | some t ↦ (ctx, t, s)
  | none ↦ start_trace fresh now ctx "implicit" s
]

abbrev pub parent : Context → Store → Option Span
parent ctx s = elim (current_span ctx) [ none ↦ none | some i ↦ get_elem? s.spans i ]

abbrev pub depth_below : Option Span → ℕ
depth_below none = 0
depth_below (some p) = p.depth + 1

-- What the span says of its place: the function and the position of its caller.
unfoldable pub start_span :
    String → ℕ → String × String → Context → String → Store → ℕ × Context × Store
unfolding trace_for
start_span fresh now (func, caller) ctx name s =
    let (ctx₁, t, s₁) = trace_for fresh now ctx s in
    (
      length s₁.spans,
      Entry.span_key (length s₁.spans) ∷ ctx₁,
      record {
        traces = s₁.traces;
        spans =
            s₁.spans
            ++ record {
              trace = some t;
              name = name;
              depth = depth_below (parent ctx₁ s₁);
              func = func;
              caller = caller;
              start = now;
              failed = "";
            }
              ∷ [];
      },
    )

abbrev pub mark : String → Span → Span
mark e sp = record {
  trace = sp.trace;
  name = sp.name;
  depth = sp.depth;
  func = sp.func;
  caller = sp.caller;
  start = sp.start;
  failed = e;
}

-- `Fail` of a span or nil, with an error's text or nil.
unfoldable pub fail : Option ℕ → Option String → Store → Store
fail (some i) (some e) s = record { traces = s.traces; spans = modify s.spans i (mark e) }
fail _ _ s = s

abbrev pub milliseconds : ℕ → ℕ
milliseconds ns = ns / 1000000

abbrev pub record_of : ℕ → Span → SpanRecord
record_of now sp = record {
  name = sp.name;
  depth = sp.depth;
  duration_ms = milliseconds (now - sp.start);
  func = sp.func;
  caller = sp.caller;
  error = sp.failed;
}

unfoldable pub append : SpanRecord → Trace → Trace
append rec t = record {
  trace_id = t.trace_id;
  name = t.name;
  start = t.start;
  timeline = t.timeline ++ rec ∷ [];
  err_cnt = if rec.error == "" then t.err_cnt else suc t.err_cnt;
}

unfoldable pub finish : ℕ → Option Span → Store → Store
unfolding append
finish now (some sp) s = elim sp.trace [
  | none ↦ s
  | some t ↦ record { traces = modify s.traces t (append (record_of now sp)); spans = s.spans }
]
finish now none s = s

-- `End` of a span or nil.
unfoldable pub end_span : ℕ → Option ℕ → Store → Store
unfolding finish
end_span now none s = s
end_span now (some i) s = finish now (get_elem? s.spans i) s

-- `buildStackSlice`: functions of a package whose name ends in "runtime" are left out.
unfoldable pub build_stack_slice : (Frame → String) → ℕ → List Frame → List String
unfolding walk
build_stack_slice show max frames = walk show (has (codes "runtime.")) max 0 (at_least_one frames)

-- One call of the logger: its level, its message and its fields.
pub record Line : Type 0 where
  pub level : String
  pub message : String
  pub fields : Fields

abbrev pub level_of : Option String → ℕ → String
level_of (some e) n = "error"
level_of none n = if ltb 0 n then "warn" else "info"

abbrev pub error_fields : Option String → List String → Fields
error_fields none stack = []
error_fields (some e) stack = ("handler_error", Field.text e) ∷ ("stack", Field.stack stack) ∷ []

abbrev pub report : ℕ → Option String → List String → Trace → Line
report now err stack t = record {
  level = level_of err t.err_cnt;
  message = "[trace] finished";
  fields =
      ("trace_id", Field.text t.trace_id)
      ∷ ("name", Field.text t.name)
      ∷ ("total_ms", Field.number (milliseconds (now - t.start)))
      ∷ ("span_count", Field.number (length t.timeline))
      ∷ ("error_count", Field.number t.err_cnt)
      ∷ ("timeline", Field.timeline t.timeline)
      ∷ error_fields err stack;
}

abbrev pub trace_of : Context → Store → Option Trace
trace_of ctx s = elim (current_trace ctx) [ none ↦ none | some i ↦ get_elem? s.traces i ]

-- `Flush`, with the text of the handler's error, or nil: the line that it logs, if any.
unfoldable pub flush : ℕ → Context → Option String → List String → Store → Option Line
flush now ctx err stack s = elim (trace_of ctx s) [
  | none ↦ none
  | some t ↦ some (report now err stack t)
]
