-- ===== src/Tracing/Nesting.antt =====
-- tracer/trace.go: spans that are started one within the other.
use go_utility.Base.{
  ℕ, ◌+◌, String, ◌≡◌, refl, ap, sym, subst, ◌∙◌, some, List, [], ◌∷◌, ◌++◌, append-nil,
  append_assoc, get_elem?-append_end, length,
}
use go_utility.Tracing.{Entry, Context, current_trace}
use go_utility.Tracing.Trace.{Span, Store, trace_for, start_span, parent, depth_below}

-- What a span is started with: a fresh identifier, the clock, its place in the code and its name.
abbrev pub Start : Type 0
Start = String × ℕ × (String × String) × String

-- Starts each span in the context of the one before.
unfoldable pub nest : List Start → Context → Store → Context × Store
nest [] ctx s = (ctx, s)
nest ((fresh, now, place, name) ∷ starts) ctx s =
    let (_, ctx₁, s₁) = start_span fresh now place ctx name s in nest starts ctx₁ s₁

-- The spans of a trace from some depth on, with the names they were started with.
abbrev pub Nested : ℕ → ℕ → List Start → List Span → Type 0
Nested t d [] [] = Unit
Nested t d ((fresh, now, place, name) ∷ starts) (sp ∷ spans) =
    (sp.trace ≡ some t) × (sp.depth ≡ d) × (sp.name ≡ name) × Nested t (d + 1) starts spans
Nested t d _ _ = ⊥

abbrev the_span : ℕ → ℕ → Start → Span
the_span t d (fresh, now, place, name) = record {
  trace = some t;
  name = name;
  depth = d;
  func = place.0;
  caller = place.1;
  start = now;
  failed = "";
}

abbrev add_span : Span → Store → Store
add_span sp s = record { traces = s.traces; spans = s.spans ++ sp ∷ [] }

start_span-known :
    (t : ℕ) (x : Start) (ctx : Context) (s : Store)
    → current_trace ctx ≡ some t
    → start_span x.0 x.1 x.2 ctx x.3 s ≡ (
      length s.spans,
      Entry.span_key (length s.spans) ∷ ctx,
      add_span (the_span t (depth_below (parent ctx s)) x) s,
    )
unfolding start_span trace_for
start_span-known t (fresh, now, place, name) ctx s h = rw (trace_for, h) refl

nest_step :
    (t : ℕ) (x : Start) (starts : List Start) (ctx : Context) (s : Store)
    → current_trace ctx ≡ some t
    → nest (x ∷ starts) ctx s
      ≡ nest starts
          (Entry.span_key (length s.spans) ∷ ctx)
          (add_span (the_span t (depth_below (parent ctx s)) x) s)
unfolding nest
nest_step t x starts ctx s h = ap (λ p. nest starts p.1 p.2) (start_span-known t x ctx s h)

-- Spans started one within the other in a context that has a trace belong to that trace, at depths
-- that grow by one from that below the context's span, or from 0; the spans and traces there were
-- stay as they are.
pub nest-Nested :
    (t : ℕ) (starts : List Start) (ctx : Context) (s : Store)
    → current_trace ctx ≡ some t
    → (new : List Span) × ((nest starts ctx s).1.spans ≡ s.spans ++ new)
      × ((nest starts ctx s).1.traces ≡ s.traces)
      × Nested t (depth_below (parent ctx s)) starts new
unfolding nest
nest-Nested t [] ctx s h = ([], sym (append-nil s.spans), refl, tt)
nest-Nested t (x ∷ starts) ctx s h =
    let sp = the_span t (depth_below (parent ctx s)) x in
    let (new, grown, traces, nested) =
      nest-Nested t starts (Entry.span_key (length s.spans) ∷ ctx) (add_span sp s) h in
    rw (nest_step t x starts ctx s h) (
      sp ∷ new,
      grown ∙ append_assoc s.spans (sp ∷ []) new,
      traces,
      (
        refl,
        refl,
        refl,
        subst (λ d. Nested t d starts new) (ap depth_below (get_elem?-append_end s.spans sp))
            nested,
      ),
    )
