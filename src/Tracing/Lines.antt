-- ===== src/Tracing/Lines.antt =====
-- The fields of log lines, and how a line of `Flush` comes out of loggerw.
use go_utility.Base.{
  ℕ, String, true, false, ◌≡◌, refl, ap, subst, ◌∙◌, Option, none, some, List, [], ◌∷◌, ◌==◌,
  string_eq, lookup, insert, lookup-insert, if◌then◌else◌, IsMap, Bool-cases, inl, inr, arith,
}
use go_utility.Tracing.{Context, Field, Fields, get_request_id, trace_id}
use go_utility.Tracing.Logger.{
  Level, Logger, Line, log, error, with, entry, ensure_request_id, with_fields, stack_field,
}
use go_utility.Tracing.Middleware.{wire, aligned, error_text}
use go_utility.Tracing.Trace as trace

abbrev pub id_or : String → String → String
id_or fresh id = if id == "" then fresh else id

ensured :
    (fresh : String) (ctx : Context)
    → (ensure_request_id fresh ctx).1 ≡ id_or fresh (get_request_id ctx)
unfolding ensure_request_id
ensured fresh ctx = ground arith

abbrev pub stack_or : Logger → (ℕ → List String) → Option Field → Option Field
stack_or l stack v = if l.include_stack then some (Field.stack (stack l.stack_max_depth)) else v

lookup-stack_field :
    (k : String) (l : Logger) (stack : ℕ → List String) (e : Fields)
    → lookup k (stack_field l stack e)
      ≡ (if "stack" == k then stack_or l stack (lookup k e) else lookup k e)
lookup-stack_field k l stack e = elim (Bool-cases l.include_stack) [
  | inl h ↦ rw (h) (lookup-insert "stack" k (Field.stack (stack l.stack_max_depth)) e)
  | inr h ↦ rw (h) (ground arith)
]

other_key : (k : String) → ("stack" == k) ≡ true → ("request_id" == k) ≡ false
other_key k h = subst (λ j. ("request_id" == j) ≡ false) ((string_eq.beq_iff "stack" k).0 h) refl

-- The fields of `entry` before the extra ones.
lookup-bound :
    (k fresh : String) (stack : ℕ → List String) (ctx : Context) (l : Logger)
    → lookup k (
        stack_field l stack
          (insert "request_id" (Field.text (ensure_request_id fresh ctx).1) l.base))
      ≡ (if "stack" == k
          then stack_or l stack (lookup k l.base)
          else (if "request_id" == k
              then some (Field.text (id_or fresh (get_request_id ctx)))
              else lookup k l.base))
lookup-bound k fresh stack ctx l =
    let id = Field.text (ensure_request_id fresh ctx).1 in
    lookup-stack_field k l stack (insert "request_id" id l.base)
    ∙ elim (Bool-cases ("stack" == k)) [
      | inl h ↦
          rw (h) (
            ap (stack_or l stack)
              (lookup-insert "request_id" k id l.base ∙ rw (other_key k h) refl))
      | inr h ↦ rw (h) (
          lookup-insert "request_id" k id l.base
          ∙ ap (λ i. if "request_id" == k then some (Field.text i) else lookup k l.base)
              (ensured fresh ctx))
    ]

lookup-with_fields :
    (k : String) (extra e : Fields)
    → IsMap extra
    → lookup k (with_fields extra e) ≡ elim (lookup k extra) [ none ↦ lookup k e | some v ↦ some v ]
lookup-with_fields k [] e h = refl
lookup-with_fields k ((j, v) ∷ extra) e h = ground (
  arith,
  lookup-with_fields k extra (insert j v e) h.1,
  lookup-insert j k v e,
  string_eq.beq_iff j k,
)

-- A line's own request identifier, and its own stack if the options ask for one, replace those
-- that `With` has bound to the logger; every other field of the logger is kept.
pub lookup-log :
    (k : String) (level : Level) (fresh message : String) (stack : ℕ → List String) (ctx : Context)
    (l : Logger)
    → lookup k (log level fresh stack ctx message l).fields ≡ (
        if "stack" == k
        then stack_or l stack (lookup k l.base)
        else (if "request_id" == k
            then some (Field.text (id_or fresh (get_request_id ctx)))
            else lookup k l.base))
unfolding log entry
lookup-log k level fresh message stack ctx l = lookup-bound k fresh stack ctx l

get_request_id-aligned :
    (ctx : Context) (stack : ℕ → List String) (l : Logger)
    → get_request_id (aligned stack l ctx) ≡ id_or (trace_id ctx) (get_request_id ctx)
get_request_id-aligned ctx stack l =
    ground (arith, string_eq.beq_iff (get_request_id ctx) "", string_eq.beq_iff (trace_id ctx) "")

lookup-error :
    (k e : String) (fresh : String) (stack : ℕ → List String) (ctx : Context) (l : Logger)
    → ("error" == k) ≡ false
    → lookup k (entry fresh stack ctx (("error", Field.text e) ∷ []) l) ≡ (
        if "stack" == k
        then stack_or l stack (lookup k l.base)
        else (if "request_id" == k
            then some (Field.text (id_or fresh (get_request_id ctx)))
            else lookup k l.base))
unfolding entry
lookup-error k e fresh stack ctx l h =
    lookup-insert "error" k (Field.text e) (
      stack_field l stack (insert "request_id" (Field.text (ensure_request_id fresh ctx).1) l.base))
    ∙ rw (h) (lookup-bound k fresh stack ctx l)

abbrev pub wired : String → Level
wired s =
    if s == "error"
    then Level.error_level
    else (if s == "warn"
        then Level.warn_level
        else (if s == "debug" then Level.debug_level else Level.info_level))

bound_field :
    (stack : ℕ → List String) (l : Logger) (ctx : Context) (fresh later : String) (extra : Fields)
    (k : String)
    → IsMap extra
    → ("stack" == k) ≡ false
    → (if "stack" == k
        then stack_or
            (with fresh stack (aligned stack l ctx) extra l)
            stack
            (lookup k (with fresh stack (aligned stack l ctx) extra l).base)
        else (if "request_id" == k
            then some (Field.text (id_or later (get_request_id (aligned stack l ctx))))
            else lookup k (with fresh stack (aligned stack l ctx) extra l).base))
      ≡ (if "request_id" == k
          then some (Field.text (id_or later (id_or (trace_id ctx) (get_request_id ctx))))
          else elim (lookup k extra) [ none ↦ lookup k l.base | some v ↦ some v ])
unfolding with entry
bound_field stack l ctx fresh later extra k m s = rw (s) (elim (Bool-cases ("request_id" == k)) [
  | inl r ↦
      rw (r) (ap (λ i. some (Field.text (id_or later i))) (get_request_id-aligned ctx stack l))
  | inr r ↦ rw (r) (
      lookup-with_fields k extra
        (stack_field l stack (
          insert "request_id" (Field.text (ensure_request_id fresh (aligned stack l ctx)).1)
            l.base))
        m
      ∙ ap (λ o. elim (lookup k extra) [ none ↦ o | some v ↦ some v ])
          (lookup-bound k fresh stack (aligned stack l ctx) l ∙ rw (s, r) refl))
])

-- The adapter of `WireLogger` turns each line of a trace into one line of the logger, at the level
-- of the same name and with the same message. Its request identifier is that of the context, else
-- the context's trace identifier, and only without either one of its own; any other field is that
-- of the trace's line, else that of the logger; this does not speak of the stack and of the error's
-- text, and takes fields whose names are different.
pub wire_lem :
    (stack : ℕ → List String) (l : Logger) (fresh later : String) (ctx : Context) (x : trace.Line)
    (k : String)
    → IsMap x.fields
    → ("stack" == k) ≡ false
    → ("error" == k) ≡ false
    → (y : Line) × (wire stack l fresh later ctx x ≡ some y)
      × (y.level ≡ wired x.level)
      × (y.message ≡ x.message)
      × (lookup k y.fields ≡ (
          if "request_id" == k
          then some (Field.text (id_or later (id_or (trace_id ctx) (get_request_id ctx))))
          else elim (lookup k x.fields) [ none ↦ lookup k l.base | some v ↦ some v ]))
unfolding wire log error
wire_lem stack l fresh later ctx x k m s e = elim (Bool-cases (x.level == "error")) [
  | inl h ↦ (
    record {
      level = Level.error_level;
      message = x.message;
      fields =
          entry later stack (aligned stack l ctx)
            (("error", Field.text (error_text stack l (lookup "handler_error" x.fields) x.message))
              ∷ [])
            (with fresh stack (aligned stack l ctx) x.fields l);
    },
    rw (wire, h) refl,
    rw (h) refl,
    refl,
    lookup-error k (error_text stack l (lookup "handler_error" x.fields) x.message) later stack
          (aligned stack l ctx) (with fresh stack (aligned stack l ctx) x.fields l) e
        ∙ bound_field stack l ctx fresh later x.fields k m s,
  )
  | inr h ↦ (
    log (wired x.level) later stack (aligned stack l ctx) x.message
        (with fresh stack (aligned stack l ctx) x.fields l),
    rw (wire, wired, h) refl,
    refl,
    refl,
    lookup-log k (wired x.level) later x.message stack (aligned stack l ctx)
          (with fresh stack (aligned stack l ctx) x.fields l)
        ∙ bound_field stack l ctx fresh later x.fields k m s,
  )
]
