-- ===== src/Tracing/Counted.antt =====
-- tracer/trace.go: the counter of errors of a trace, and the level of the line that reports it.
use go_utility.Base.{
  ℕ, zero, suc, String, Bool, false, ◌||◌, not, ◌≡◌, refl, Option, none, some, List, [], ◌∷◌, ◌++◌,
  ◌==◌, string_eq, All, All-append, get_elem?, ltb, if◌then◌else◌, Option-cases, subst, inl, inr,
  arith,
}
use go_utility.Tracing.{Context, SpanRecord, current_trace}
use go_utility.Tracing.Trace.{
  Trace, Span, Store, modify, start_trace, trace_for, start_span, fail, append, record_of, end_span,
  finish, Line, trace_of, flush, report, level_of,
}

-- The calls that change the store.
pub data Call : Type 0 where
  starts_trace : String → ℕ → Context → String → Call
  starts_span : String → ℕ → String × String → Context → String → Call
  fails : Option ℕ → Option String → Call
  ends : ℕ → Option ℕ → Call

unfoldable pub apply : Call → Store → Store
apply (Call.starts_trace fresh now ctx name) s = (start_trace fresh now ctx name s).2
apply (Call.starts_span fresh now place ctx name) s = (start_span fresh now place ctx name s).2
apply (Call.fails i e) s = fail i e s
apply (Call.ends now i) s = end_span now i s

abbrev pub run : List Call → Store → Store
run [] s = s
run (c ∷ cs) s = run cs (apply c s)

abbrev pub empty : Store
empty = record { traces = []; spans = [] }

abbrev pub count_errors : List SpanRecord → ℕ
count_errors [] = 0
count_errors (r ∷ rs) = if r.error == "" then count_errors rs else suc (count_errors rs)

abbrev pub has_error : List SpanRecord → Bool
has_error [] = false
has_error (r ∷ rs) = not (r.error == "") || has_error rs

abbrev pub IsCounted : Trace → Type 0
IsCounted t = t.err_cnt ≡ count_errors t.timeline

count_errors-append :
    (rs : List SpanRecord) (r : SpanRecord)
    → count_errors (rs ++ r ∷ [])
      ≡ (if r.error == "" then count_errors rs else suc (count_errors rs))
count_errors-append [] r = refl
count_errors-append (x ∷ rs) r = ground (arith, count_errors-append rs r)

has_error-count : (rs : List SpanRecord) → ltb 0 (count_errors rs) ≡ has_error rs
has_error-count [] = refl
has_error-count (r ∷ rs) = ground (arith, has_error-count rs)

append-IsCounted : (r : SpanRecord) (t : Trace) → IsCounted t → IsCounted (append r t)
unfolding append
append-IsCounted r t h = ground (arith, count_errors-append t.timeline r)

module _ {A : Type 0} (P : A → Type 0) where
  All-modify :
      (f : A → A)
      → ((x : A) → P x → P (f x))
      → (xs : List A) (i : ℕ) → All P xs
      → All P (modify xs i f)
  All-modify f step [] i h = tt
  All-modify f step (x ∷ xs) zero h = (step x h.0, h.1)
  All-modify f step (x ∷ xs) (suc i) h = (h.0, All-modify f step xs i h.1)

  All-get_elem? : (xs : List A) (i : ℕ) (x : A) → All P xs → get_elem? xs i ≡ some x → P x
  All-get_elem? [] i x h e = absurd (ground arith)
  All-get_elem? (y ∷ xs) zero x h e = subst P (ground arith) h.0
  All-get_elem? (y ∷ xs) (suc i) x h e = All-get_elem? xs i x h.1 e

abbrev AreCounted : Store → Type 0
AreCounted s = All IsCounted s.traces

trace_for-AreCounted :
    (fresh : String) (now : ℕ) (ctx : Context) (s : Store) (o : Option ℕ)
    → current_trace ctx ≡ o
    → AreCounted s
    → AreCounted (trace_for fresh now ctx s).2
unfolding trace_for start_trace
trace_for-AreCounted fresh now ctx s (some i) e h = rw (trace_for, e) h
trace_for-AreCounted fresh now ctx s none e h =
    rw (trace_for, e) (All-append IsCounted s.traces _ h (refl, tt))

finish-AreCounted :
    (now : ℕ) (o : Option Span) (s : Store) → AreCounted s → AreCounted (finish now o s)
unfolding finish
finish-AreCounted now none s h = h
finish-AreCounted now (some sp) s h = elim (Option-cases sp.trace) [
  | inl e ↦ rw (e) h
  | inr (t, e) ↦ rw (e) (
      All-modify IsCounted (append (record_of now sp)) (append-IsCounted (record_of now sp))
        s.traces t h)
]

end_span-AreCounted :
    (now : ℕ) (i : Option ℕ) (s : Store) → AreCounted s → AreCounted (end_span now i s)
unfolding end_span
end_span-AreCounted now none s h = h
end_span-AreCounted now (some i) s h = finish-AreCounted now (get_elem? s.spans i) s h

fail-AreCounted :
    (i : Option ℕ) (e : Option String) (s : Store) → AreCounted s → AreCounted (fail i e s)
unfolding fail
fail-AreCounted (some i) (some e) s h = h
fail-AreCounted _ _ s h = h

apply-AreCounted : (c : Call) (s : Store) → AreCounted s → AreCounted (apply c s)
unfolding apply start_trace start_span
apply-AreCounted (Call.starts_trace fresh now ctx name) s h =
    All-append IsCounted s.traces _ h (refl, tt)
apply-AreCounted (Call.starts_span fresh now place ctx name) s h =
    trace_for-AreCounted fresh now ctx s (current_trace ctx) refl h
apply-AreCounted (Call.fails i e) s h = fail-AreCounted i e s h
apply-AreCounted (Call.ends now i) s h = end_span-AreCounted now i s h

run-AreCounted : (cs : List Call) (s : Store) → AreCounted s → AreCounted (run cs s)
run-AreCounted [] s h = h
run-AreCounted (c ∷ cs) s h = run-AreCounted cs (apply c s) (apply-AreCounted c s h)

abbrev pub level_for : Option String → List SpanRecord → String
level_for (some e) rs = "error"
level_for none rs = if has_error rs then "warn" else "info"

-- Whatever calls have been made, the counter of each trace is the number of the records in its
-- timeline that have an error.
pub run_counts : (cs : List Call) → All IsCounted (run cs empty).traces
run_counts cs = run-AreCounted cs empty tt

level_same :
    (err : Option String) (t : Trace)
    → IsCounted t
    → level_of err t.err_cnt ≡ level_for err t.timeline
level_same (some e) t h = refl
level_same none t h = rw (h, has_error-count t.timeline) refl

traced :
    (o : Option ℕ) (s : Store) (t : Trace)
    → AreCounted s
    → (elim o [ none ↦ none | some i ↦ get_elem? s.traces i ]) ≡ some t
    → IsCounted t
traced none s t h e = absurd (ground arith)
traced (some i) s t h e = All-get_elem? IsCounted s.traces i t h e

-- Whatever calls have been made, `Flush` in the context of a trace logs one line: at level error
-- when the handler failed, at level warn when it did not but a record of the timeline has an
-- error, and at level info when neither is so.
pub flush_level :
    (cs : List Call) (now : ℕ) (ctx : Context) (err : Option String) (stack : List String)
    (t : Trace)
    → trace_of ctx (run cs empty) ≡ some t
    → (l : Line) × (flush now ctx err stack (run cs empty) ≡ some l)
      × (l.level ≡ level_for err t.timeline)
unfolding flush
flush_level cs now ctx err stack t h =
    rw (flush, h)
      (
        report now err stack t,
        refl,
        level_same err t (traced (current_trace ctx) (run cs empty) t (run_counts cs) h),
      )
