-- ===== src/Graceful.antt =====
-- v2/gracefulw/graceful.go: the queue of cleanup tasks and their run. The signals that `Wait`
-- waits for, and the logging, are left out. The first generation is gracefull/shutdown.go.
pub mod Once
mod Tests
use go_utility.Base.{
  String, Bool, true, false, Option, List, insert, string_eq, map, [], ◌∷◌, ◌++◌, ◌≡◌, ◌⊎◌,
}

-- `Task`, with the context's type `C` and the error's `E`.
pub record Task (C E : Type 0) : Type 0 where
  pub name : String
  pub cleanup : C → Option E

-- The tasks whose goroutines have not ended, the answers of those that have, in their order, and
-- whether the context of `Execute` is done.
pub record Execution (C E : Type 0) : Type 0 where
  pub running : List (Task C E)
  pub ended : List (String × Option E)
  pub expired : Bool

module _ {C E : Type 0} where
  -- `tasks = append(tasks, Task{…})`
  unfoldable pub register : String → (C → Option E) → List (Task C E) → List (Task C E)
  register name cleanup tasks = tasks ++ record { name = name; cleanup = cleanup } ∷ []

  -- The first part of `Execute`: the queue is taken and cleared in one step, and a goroutine is
  -- started for each task.
  unfoldable pub launch : List (Task C E) → List (Task C E) × Execution C E
  launch tasks = ([], record { running = tasks; ended = []; expired = false })

  abbrev pub answer : C → Task C E → String × Option E
  answer ctx t = (t.name, t.cleanup ctx)

  -- What may happen until `Execute` returns: any of the goroutines ends, or the context does.
  pub data Step (ctx : C) (s t : Execution C E) : Type 0 where
    finish :
        (j : Task C E) (before after : List (Task C E))
        → s.running ≡ before ++ j ∷ after
        → t ≡ record s { running = before ++ after; ended = s.ended ++ answer ctx j ∷ [] }
        → Step ctx s t
    expire : t ≡ record s { expired = true } → Step ctx s t

  pub data Reach (ctx : C) (s : Execution C E) : Execution C E → Type 0 where
    here : Reach ctx s s
    next : {t u : Execution C E} → Reach ctx s t → Step ctx t u → Reach ctx s u

  -- The `select` at the end of `Execute` has a case to go on with.
  abbrev pub Returns : Execution C E → Type 0
  Returns s = (s.running ≡ []) ⊎ (s.expired ≡ true)

  -- `AddFunc` and `ShutdownAll` of the first generation: a map of functions, which the latter
  -- starts in the order of one iteration and waits for without a limit. Its functions take no
  -- context.
  unfoldable pub add_func :
      String → (C → Option E) → List (String × (C → Option E)) → List (String × (C → Option E))
  add_func key callback m = insert key callback m

  unfoldable pub shutdown_all : List (String × (C → Option E)) → Execution C E
  shutdown_all m = record {
    running = map (λ p. record { name = p.0; cleanup = p.1 }) m;
    ended = [];
    expired = false;
  }
