-- ===== src/Logw/Ids.antt =====
-- logw: which identifier the lines of a request have.
use go_utility.Base.{
  String, ◌≡◌, ◌≢◌, refl, ap, ◌∙◌, Option, none, some, List, [], ◌∷◌, string_eq, arith,
}
use go_utility.Logw.{
  Entry, Context, find_log_id, inject_log_id, get_log_id, build_log_attributes, Level, ctx_log,
}

-- What layers put into a context, one within the other: a fresh identifier each, or something else.
pub data Layer : Type 0 where
  injects : String → Layer
  adds_other : Layer

abbrev pub enter : List Layer → Context → Context
unfolding inject_log_id
enter [] ctx = ctx
enter (injects fresh ∷ layers) ctx = enter layers (inject_log_id fresh ctx)
enter (adds_other ∷ layers) ctx = enter layers (Entry.other ∷ ctx)

find-enter :
    (layers : List Layer) (ctx : Context) (id : String)
    → find_log_id ctx ≡ some id
    → find_log_id (enter layers ctx) ≡ some id
unfolding enter inject_log_id
find-enter [] ctx id h = h
find-enter (injects fresh ∷ layers) ctx id h =
    find-enter layers (inject_log_id fresh ctx) id (rw (inject_log_id, h) h)
find-enter (adds_other ∷ layers) ctx id h = find-enter layers (Entry.other ∷ ctx) id h

find-inject :
    (fresh : String) (ctx : Context) (o : Option String)
    → find_log_id ctx ≡ o
    → find_log_id (inject_log_id fresh ctx) ≡ some (elim o [ none ↦ fresh | some id ↦ id ])
unfolding inject_log_id
find-inject fresh ctx none h = rw (inject_log_id, h) refl
find-inject fresh ctx (some id) h = rw (inject_log_id, h) h

attributes_of :
    (ctx : Context) (id : String)
    → find_log_id ctx ≡ some id
    → id ≢ ""
    → build_log_attributes ctx ≡ ("x-log-id", id) ∷ []
unfolding build_log_attributes get_log_id
attributes_of ctx id h ne =
    rw (build_log_attributes, get_log_id, h) (ground (arith, ne, string_eq.beq_iff id ""))

-- However many layers inject an identifier after the first one, a line has the identifier that the
-- context had, else the one of the first layer, provided that it is not empty.
pub ctx_log-enter :
    (fresh id : String) (layers : List Layer) (ctx : Context) (level : Level) (message : String)
    → (elim (find_log_id ctx) [ none ↦ fresh | some i ↦ i ]) ≡ id
    → id ≢ ""
    → (ctx_log level (enter (injects fresh ∷ layers) ctx) message).attributes
      ≡ ("x-log-id", id) ∷ []
unfolding ctx_log enter
ctx_log-enter fresh id layers ctx level message h ne =
    attributes_of (enter layers (inject_log_id fresh ctx)) id
      (find-enter layers (inject_log_id fresh ctx) id
        (find-inject fresh ctx (find_log_id ctx) refl ∙ ap some h))
      ne
