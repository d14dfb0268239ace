-- ===== src/Tracing/Report.antt =====
-- The line that `tracer.Middleware` logs at the end of a request.
use go_utility.Base.{
  ℕ, String, false, ◌≡◌, ◌≢◌, refl, ap, ◌∙◌, none, some, List, [], ◌∷◌, ◌++◌, lookup, get_elem?,
  get_elem?-append_end, length, arith, string_eq, ◌==◌, Bool-cases, inl, inr, ltb,
}
use go_utility.Tracing.{Context, Field, trace_id}
use go_utility.Tracing.Trace.{
  Trace, Store, start_trace, with_trace_id, level_of, flush, report, trace_of,
}
use go_utility.Tracing.Trace as trace
use go_utility.Tracing.Middleware.{
  Request, World, Handler, Outcome, returned, panicked, tracing, flushed, with_ctx, incoming,
  error_of,
}
use go_utility.Tracing.Correlation.{traced_id, traced_ctx, traced_world, incoming_id}

-- A handler keeps the traces there are, with their identifiers.
abbrev pub KeepsTraces : Handler → Type 0
KeepsTraces next =
    (r : Request) (w : World) (i : ℕ) (t : Trace)
    → get_elem? w.store.traces i ≡ some t
    → (t' : Trace) × (get_elem? (next r w).0.store.traces i ≡ some t') × (t'.trace_id ≡ t.trace_id)

-- The level says `error` when the handler has returned an error, and then only.
abbrev pub LevelFits : Outcome → String → Type 0
LevelFits (returned (some e)) level = level ≡ "error"
LevelFits _ level = level ≢ "error"

not_error : (s : String) → (s == "error") ≡ false → s ≢ "error"
not_error s h e = ground (arith, string_eq.beq_iff s "error")

quiet : (n : ℕ) → level_of none n ≢ "error"
quiet n = elim (Bool-cases (ltb 0 n)) [
  | inl h ↦ rw (h) (not_error "warn" refl)
  | inr h ↦ rw (h) (not_error "info" refl)
]

level_fits : (out : Outcome) (n : ℕ) → LevelFits out (level_of (error_of out) n)
level_fits (returned (some e)) n = refl
level_fits (returned none) n = quiet n
level_fits panicked n = quiet n

abbrev new_trace : String → ℕ → String → Request → Trace
new_trace fresh now name r = record {
  trace_id = trace_id (with_trace_id fresh (incoming r));
  name = name;
  start = now;
  timeline = [];
  err_cnt = 0;
}

reported :
    (later : ℕ) (ctx : Context) (stack : List String) (result : World × Outcome) (t : Trace)
    → trace_of ctx result.0.store ≡ some t
    → (flushed later ctx stack result).0.reports
      ≡ result.0.reports ++ report later (error_of result.1) stack t ∷ []
unfolding flushed flush
reported later ctx stack result t h = rw (flush, h) refl

-- A handler that keeps the traces is followed by one line, whether it returns or panics: the line
-- has the trace identifier of the request, and its level is error when the handler has returned an
-- error; a panic is no error.
pub tracing_report :
    (fresh : String) (now later : ℕ) (name : String) (stack : List String) (next : Handler)
    (r : Request) (w : World)
    → KeepsTraces next
    → (before : List trace.Line) × (line : trace.Line) × ((tracing fresh now later name stack next r
          w).0.reports
        ≡ before ++ line ∷ [])
      × (lookup "trace_id" line.fields ≡ some (Field.text (traced_id fresh r)))
      × LevelFits (tracing fresh now later name stack next r w).1 line.level
unfolding tracing flushed start_trace
tracing_report fresh now later name stack next r w keeps =
    let w₁ = traced_world fresh now name r w in
    let result = next (with_ctx (traced_ctx fresh r w) r) w₁ in
    let (t', found, id) =
      keeps (with_ctx (traced_ctx fresh r w) r) w₁ (length w.store.traces)
        (new_trace fresh now name r)
        (get_elem?-append_end w.store.traces (new_trace fresh now name r)) in
    (
      result.0.reports,
      report later (error_of result.1) stack t',
      reported later (traced_ctx fresh r w) stack result t' found,
      ap (λ x. some (Field.text x)) (id ∙ incoming_id fresh r),
      level_fits result.1 t'.err_cnt,
    )
