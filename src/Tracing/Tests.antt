-- ===== src/Tracing/Tests.antt =====
-- Runs of the tracing and logging packages, and an example of each result about them.
use go_utility.Base.{
  String, true, false, ◌≡◌, refl, none, some, List, [], ◌∷◌, string_eq, lookup, arith,
}
use go_utility.Base.Text.{codes}
use go_utility.Tracing.{Entry, Field, get_request_id, trace_id}
use go_utility.Tracing.Frames.{Frame}
use go_utility.Tracing.Trace.{
  Trace, Span, Store, flush, trace_of, build_stack_slice, parent, depth_below, append, finish,
  start_trace, start_span, fail, end_span, trace_for,
}
use go_utility.Tracing.Trace as trace
use go_utility.Tracing.Logger.{Logger, Level, Formatter, stdout, log, new}
use go_utility.Tracing.Logger as log_lines
use go_utility.Tracing.Middleware.{Request, World, Handler, Outcome, tracing, logging, wire}
use go_utility.Tracing.Counted.{
  Call, starts_trace, starts_span, fails, ends, apply, run, empty, level_for, flush_level,
}
use go_utility.Tracing.Nesting.{Start}
use go_utility.Tracing.Lines.{wire_lem}
use go_utility.Tracing.Correlation.{Keeps, logging-tracing_at}

abbrev place : String × String
place = ("main.serve", "main.go:7")

-- A trace with two spans, of which the inner one fails.
abbrev calls : List Call
calls =
    starts_trace "t1" 0 [] "GET /"
    ∷ starts_span "" 1 place (Entry.trace_key 0 ∷ []) "outer"
    ∷ starts_span "" 2 place (Entry.span_key 0 ∷ Entry.trace_key 0 ∷ []) "inner"
    ∷ fails (some 1) (some "no row")
    ∷ ends 3000002 (some 1)
    ∷ ends 4000001 (some 0)
    ∷ []

abbrev the_trace : Trace
the_trace = record {
  trace_id = "t1";
  name = "GET /";
  start = 0;
  timeline =
      record {
        name = "inner";
        depth = 1;
        duration_ms = 3;
        func = "main.serve";
        caller = "main.go:7";
        error = "no row";
      }
      ∷ record {
        name = "outer";
        depth = 0;
        duration_ms = 4;
        func = "main.serve";
        caller = "main.go:7";
        error = "";
      }
      ∷ [];
  err_cnt = 1;
}

traced : trace_of (Entry.trace_key 0 ∷ []) (run calls empty) ≡ some the_trace
unfolding apply start_trace start_span trace_for fail end_span finish append
traced = refl

flush_level_example :
    (l : trace.Line) × (flush 5000000 (Entry.trace_key 0 ∷ []) none [] (run calls empty) ≡ some l)
    × (l.level ≡ level_for none the_trace.timeline)
flush_level_example = flush_level calls 5000000 (Entry.trace_key 0 ∷ []) none [] the_trace traced

abbrev starts : List Start
starts = ("", 1, place, "outer") ∷ ("", 2, place, "inner") ∷ []

abbrev one_trace : Store
unfolding apply
one_trace = apply (starts_trace "t1" 0 [] "GET /") empty

abbrev frame : String → Frame
frame f = record { function = codes f; file = f; line = 1 }

abbrev frames : List Frame
frames = frame "main.serve" ∷ frame "runtime.goexit" ∷ frame "main.main" ∷ []

abbrev logger : Logger
unfolding new
logger = new (λ s. s) none

abbrev bound : Logger
bound = record {
  level = logger.level;
  formatter = logger.formatter;
  timestamp_format = logger.timestamp_format;
  include_stack = false;
  stack_max_depth = 6;
  writers = logger.writers;
  base = ("request_id", Field.text "r1") ∷ ("user", Field.text "ann") ∷ [];
}

abbrev line : trace.Line
line = record {
  level = "warn";
  message = "[trace] finished";
  fields = ("trace_id", Field.text "t1") ∷ ("error_count", Field.number 1) ∷ [];
}

wire_lem_example :
    (y : log_lines.Line) × (wire (λ n. []) bound "f" "g" (Entry.trace_id_key "t1" ∷ []) line
      ≡ some y)
    × (y.level ≡ Level.warn_level)
    × (y.message ≡ "[trace] finished")
    × (lookup "request_id" y.fields ≡ some (Field.text "t1"))
wire_lem_example =
    wire_lem (λ n. []) bound "f" "g" (Entry.trace_id_key "t1" ∷ []) line "request_id"
      (refl, (refl, tt)) refl refl

abbrev request : Request
request = record {
  ctx = [];
  header = "h1";
  method = "POST";
  path = "/";
  query = "";
  body = some ("x=1", none);
}

abbrev world : World
world = record { store = empty; status = 200; header = ""; lines = []; reports = [] }

logging-tracing_at_example :
    (r' : Request) × (w' : World) × (after : World × Outcome → World × Outcome) × ((next : Handler)
      → logging (λ n. []) bound "f" true "1ms" (tracing "g" 0 1 "POST /" [] next) request world
        ≡ after (next r' w'))
    × Keeps after
    × (get_request_id r'.ctx ≡ "f")
    × (trace_id r'.ctx ≡ "f")
    × (r'.header ≡ "f")
    × (w'.header ≡ "f")
logging-tracing_at_example =
    logging-tracing_at (λ n. []) bound "f" true "1ms" "g" 0 1 "POST /" [] request world
      (λ e. ground (arith, string_eq.beq_iff "g" ""))
      (λ e. ground (arith, string_eq.beq_iff "f" ""))
