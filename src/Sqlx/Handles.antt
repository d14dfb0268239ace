-- ===== src/Sqlx/Handles.antt =====
-- sqlxw: a query through the handles that `GetDB` and `Debug` give.
use go_utility.Base.{String, Bool, true, false, ◌≡◌, refl, ap, ◌∙◌, List, [], ◌∷◌, if◌then◌else◌}
use go_utility.Sqlx.{
  Entry, Context, debug_wrapper, current_tx, get_db, debug, Method, is_logged, send,
}

-- The lines of one query that is logged at most once.
abbrev pub once : Method → String → List (Method × String)
once m q = if is_logged m then (m, q) ∷ [] else []

send-current :
    (m : Method) (q : String) (ctx : Context) → send m q (current_tx ctx) ≡ ([], current_tx ctx)
unfolding send
send-current m q [] = refl
send-current m q (Entry.tx i ∷ ctx) = refl
send-current m q (Entry.other ∷ ctx) = send-current m q ctx

send-wrapped :
    (m : Method) (q : String) (ctx : Context)
    → send m q (debug_wrapper (current_tx ctx)) ≡ (once m q, current_tx ctx)
unfolding send
send-wrapped m q ctx =
    ap (λ p. ((if is_logged m then (m, q) ∷ p.0 else p.0), p.1)) (send-current m q ctx)

debug-current : (ctx : Context) → debug (current_tx ctx) ≡ debug_wrapper (current_tx ctx)
unfolding debug
debug-current [] = refl
debug-current (Entry.tx i ∷ ctx) = refl
debug-current (Entry.other ∷ ctx) = debug-current ctx

-- A query through a handle of `GetDB` that is passed to `Debug` reaches the context's transaction, or
-- else the database, and `Get`, `Select` and `Exec` are logged once, whether or not the handle was
-- already one that logs; the other methods are not logged.
pub send-debug :
    (m : Method) (q : String) (ctx : Context) (is_debug : Bool)
    → send m q (debug (get_db ctx is_debug)) ≡ (once m q, current_tx ctx)
unfolding get_db debug
send-debug m q ctx true = send-wrapped m q ctx
send-debug m q ctx false = ap (send m q) (debug-current ctx) ∙ send-wrapped m q ctx
