-- ===== src/Tracing/Correlation.antt =====
-- The identifiers that the middlewares of tracer and loggerw give to a request, alone and one
-- within the other.
use go_utility.Base.{
  ℕ, String, Bool, ◌≡◌, ◌≢◌, refl, append-nil, [], ap, sym, ◌∙◌, Option, List, ◌∷◌, ◌==◌, string_eq,
  length, if◌then◌else◌, Bool-cases, inl, inr, arith,
}
use go_utility.Tracing.{Context, Entry, get_request_id, trace_id}
use go_utility.Tracing.Trace.{start_trace, with_trace_id}
use go_utility.Tracing.Logger.{Logger, Line, ensure_request_id}
use go_utility.Tracing.Middleware.{
  Request, World, Handler, Outcome, returned, panicked, tracing, logging, inject, incoming, flushed,
  logged, respond, with_ctx, with_header, with_body, add_lines, is_logged, read_failure, reread,
  copied,
}
use go_utility.Tracing.Lines.{id_or}

abbrev pub traced_id : String → Request → String
traced_id fresh r = if r.header == "" then id_or fresh (trace_id r.ctx) else r.header

trace_id-with_trace_id :
    (fresh : String) (ctx : Context)
    → trace_id (with_trace_id fresh ctx) ≡ id_or fresh (trace_id ctx)
trace_id-with_trace_id fresh ctx = ground arith

get_request_id-with_trace_id :
    (fresh : String) (ctx : Context) → get_request_id (with_trace_id fresh ctx) ≡ get_request_id ctx
get_request_id-with_trace_id fresh ctx = ground arith

get_request_id-incoming : (r : Request) → get_request_id (incoming r) ≡ get_request_id r.ctx
get_request_id-incoming r = ground arith

pub incoming_id :
    (fresh : String) (r : Request) → trace_id (with_trace_id fresh (incoming r)) ≡ traced_id fresh r
incoming_id fresh r =
    ground (arith, trace_id-with_trace_id fresh (incoming r), string_eq.beq_iff r.header "")

ensured_id :
    (fresh : String) (ctx : Context)
    → (ensure_request_id fresh ctx).1 ≡ id_or fresh (get_request_id ctx)
unfolding ensure_request_id
ensured_id fresh ctx = ground arith

get_request_id-ensure :
    (fresh : String) (ctx : Context)
    → get_request_id (ensure_request_id fresh ctx).0 ≡ id_or fresh (get_request_id ctx)
unfolding ensure_request_id
get_request_id-ensure fresh ctx = ground arith

trace_id-ensure :
    (fresh : String) (ctx : Context) → trace_id (ensure_request_id fresh ctx).0 ≡ trace_id ctx
unfolding ensure_request_id
trace_id-ensure fresh ctx = ground arith

traced_id_ne : (fresh : String) (r : Request) → fresh ≢ "" → traced_id fresh r ≢ ""
traced_id_ne fresh r h =
    ground (arith, h, string_eq.beq_iff r.header "", string_eq.beq_iff (trace_id r.ctx) "")

inject_id : (ctx : Context) (header : String) → trace_id ctx ≢ "" → inject ctx header ≡ trace_id ctx
unfolding inject
inject_id ctx header h = ground (arith, string_eq.beq_iff (trace_id ctx) "", h)

-- What the middlewares call the handler on.
abbrev pub traced_ctx : String → Request → World → Context
traced_ctx fresh r w = Entry.trace_key (length w.store.traces) ∷ with_trace_id fresh (incoming r)

abbrev pub traced_world : String → ℕ → String → Request → World → World
traced_world fresh now name r w =
    respond (start_trace fresh now (incoming r) name w.store).2
      (inject (traced_ctx fresh r w) w.header) w

-- What a middleware makes of the handler's answer: the outcome, the status and the header stay.
abbrev pub Keeps : (World × Outcome → World × Outcome) → Type 0
Keeps after =
    (out : World × Outcome)
    → ((after out).1 ≡ out.1)
      × ((after out).0.status ≡ out.0.status)
      × ((after out).0.header ≡ out.0.header)

flushed-Keeps : (later : ℕ) (ctx : Context) (stack : List String) → Keeps (flushed later ctx stack)
unfolding flushed
flushed-Keeps later ctx stack (w, out) = (refl, refl, refl)

tracing_at :
    (fresh : String) (now later : ℕ) (name : String) (stack : List String) (r : Request) (w : World)
    (next : Handler)
    → tracing fresh now later name stack next r w
      ≡ flushed later
          (traced_ctx fresh r w)
          stack
          (next (with_ctx (traced_ctx fresh r w) r) (traced_world fresh now name r w))
unfolding tracing start_trace
tracing_at fresh now later name stack r w next = refl

abbrev identified : String → Request → Request
identified fresh r =
    with_header (ensure_request_id fresh r.ctx).1 (with_ctx (ensure_request_id fresh r.ctx).0 r)

abbrev with_lines : List Line → World → World
with_lines ls w = record {
  store = w.store;
  status = w.status;
  header = w.header;
  lines = ls;
  reports = w.reports;
}

abbrev answered : String → Request → World → World
answered fresh r w = respond w.store (ensure_request_id fresh r.ctx).1 w

logged-Keeps :
    (stack : ℕ → List String) (l : Logger) (fresh : String) (ctx : Context) (r : Request)
    (latency body : String)
    → Keeps (logged stack l fresh ctx r latency body)
unfolding logged
logged-Keeps stack l fresh ctx r latency body (w, returned err) = (refl, refl, refl)
logged-Keeps stack l fresh ctx r latency body (w, panicked) = (refl, refl, refl)

-- A handler is called on the request itself, or with its body read and put back.
logging_at :
    (stack : ℕ → List String) (l : Logger) (fresh : String) (log_body : Bool) (latency : String)
    (r : Request) (w : World)
    → (body : Option (String × Option String)) × (lines : List Line) × (copy : String)
      × ((next : Handler)
          → logging stack l fresh log_body latency next r w
            ≡ logged stack l fresh
                (ensure_request_id fresh r.ctx).0
                (identified fresh r)
                latency
                copy
                (next (with_body body (identified fresh r)) (add_lines lines (answered fresh r w))))
unfolding logging
logging_at stack l fresh log_body latency r w = elim (Bool-cases (is_logged log_body r)) [
  | inl h ↦ (
    reread r.body,
    read_failure stack l fresh (ensure_request_id fresh r.ctx).0 r.body,
    copied r.body,
    λ next. rw (logging, h) refl,
  )
  | inr h ↦ (
    r.body,
    [],
    "",
    λ next.
        rw (logging, h)
          (ap
            (λ ls.
              logged stack l fresh (ensure_request_id fresh r.ctx).0 (identified fresh r) latency ""
                (next (identified fresh r) (with_lines ls (answered fresh r w))))
            (sym (append-nil w.lines))),
  )
]

traced_ids :
    (fresh : String) (now : ℕ) (name : String) (r : Request) (w : World)
    → fresh ≢ ""
    → (trace_id (traced_ctx fresh r w) ≡ traced_id fresh r)
      × ((traced_world fresh now name r w).header ≡ traced_id fresh r)
traced_ids fresh now name r w h =
    let e = incoming_id fresh r in
    (e, inject_id (traced_ctx fresh r w) w.header (λ z. traced_id_ne fresh r h (sym e ∙ z)) ∙ e)

id_ne : (fresh id : String) → fresh ≢ "" → id_or fresh id ≢ ""
id_ne fresh id h = ground (arith, h, string_eq.beq_iff id "")

traced_header :
    (f fresh : String) (r : Request) (id : String) → id ≢ "" → r.header ≡ id → traced_id f r ≡ id
traced_header f fresh r id h e = ground (arith, e, string_eq.beq_iff r.header "", h)

module _ (stack : ℕ → List String) (l : Logger) (fresh_id : String) (log_body : Bool)
    (latency : String) (fresh : String) (now later : ℕ) (name : String) (frames : List String) where
  outer_ids :
      (r : Request) (w : World) (id : String)
      → fresh ≢ ""
      → id ≢ ""
      → r.header ≡ id
      → get_request_id r.ctx ≡ id
      → (get_request_id (traced_ctx fresh r w) ≡ id)
        × (trace_id (traced_ctx fresh r w) ≡ id)
        × (r.header ≡ id)
        × ((traced_world fresh now name r w).header ≡ id)
  outer_ids r w id h ne header request =
      let traced = traced_header fresh fresh r id ne header in
      let (inner, outer) = traced_ids fresh now name r w h in
      (
        get_request_id-with_trace_id fresh (incoming r) ∙ get_request_id-incoming r ∙ request,
        inner ∙ traced,
        header,
        outer ∙ traced,
      )

  -- With `LoggerWithRequestID` around `tracer.Middleware`, a request is handed to its handler once, and
  -- where it is handed over the request identifier, the trace identifier, the request's header and the
  -- response's header are all the request identifier of the context, else a fresh one, whatever header
  -- the request came with. The outcome, the status and the response's header stay as the handler leaves
  -- them. Fresh identifiers are not empty.
  pub logging-tracing_at :
      (r : Request) (w : World)
      → fresh ≢ ""
      → fresh_id ≢ ""
      → (r' : Request) × (w' : World) × (after : World × Outcome → World × Outcome)
        × ((next : Handler)
            → logging stack l fresh_id log_body latency
                (tracing fresh now later name frames next)
                r
                w
              ≡ after (next r' w'))
        × Keeps after
        × (get_request_id r'.ctx ≡ id_or fresh_id (get_request_id r.ctx))
        × (trace_id r'.ctx ≡ id_or fresh_id (get_request_id r.ctx))
        × (r'.header ≡ id_or fresh_id (get_request_id r.ctx))
        × (w'.header ≡ id_or fresh_id (get_request_id r.ctx))
  logging-tracing_at r w h h' =
      let (body, lines, copy, called) = logging_at stack l fresh_id log_body latency r w in
      let r₁ = with_body body (identified fresh_id r) in
      let w₁ = add_lines lines (answered fresh_id r w) in
      let ctx = (ensure_request_id fresh_id r.ctx).0 in
      let traced = traced_ctx fresh r₁ w₁ in
      let (a, b, c, d) =
        outer_ids r₁ w₁ (id_or fresh_id (get_request_id r.ctx)) h
          (id_ne fresh_id (get_request_id r.ctx) h') (ensured_id fresh_id r.ctx)
          (get_request_id-ensure fresh_id r.ctx) in
      (
        with_ctx traced r₁,
        traced_world fresh now name r₁ w₁,
        (λ out.
            logged stack l fresh_id ctx (identified fresh_id r) latency copy
              (flushed later traced frames out)),
        (λ next.
            called (tracing fresh now later name frames next)
            ∙ ap (logged stack l fresh_id ctx (identified fresh_id r) latency copy)
                (tracing_at fresh now later name frames r₁ w₁ next)),
        (λ out.
            let outer =
              logged-Keeps stack l fresh_id ctx (identified fresh_id r) latency copy
                (flushed later traced frames out) in
            let inner = flushed-Keeps later traced frames out in
            (outer.0 ∙ inner.0, outer.1 ∙ inner.1, outer.2 ∙ inner.2)),
        a,
        b,
        c,
        d,
      )
