-- ===== src/Graceful/Once.antt =====
-- graceful.go: each registered task is run once.
use mathlib.Core.List.{Perm, perm_middle, map-append}
use mathlib.Core.List.Perm
use go_utility.Base.{
  String, false, Option, List, [], ◌∷◌, ◌++◌, map, ◌≡◌, sym, ◌∙◌, ap, subst, inl, inr, append_assoc,
  append-nil, arith,
}
use go_utility.Graceful.{
  Task, Execution, register, launch, answer, finish, expire, Reach, here, next, Returns,
}

-- A call of the package: `Register`, or `Execute`.
pub data Call (C E : Type 0) : Type 0 where
  registers : String → (C → Option E) → Call C E
  executes : Call C E

module _ {C E : Type 0} where
  -- The tasks that a history of calls launches, and the queue it leaves.
  unfoldable pub history : List (Call C E) → List (Task C E) → List (Task C E) × List (Task C E)
  unfolding register launch
  history [] tasks = ([], tasks)
  history (registers name f ∷ calls) tasks = history calls (register name f tasks)
  history (executes ∷ calls) tasks =
      let (queue, execution) = launch tasks in
      let (launched, left) = history calls queue in (execution.running ++ launched, left)

  abbrev pub registered : List (Call C E) → List (Task C E)
  registered [] = []
  registered (registers name f ∷ calls) = record { name = name; cleanup = f } ∷ registered calls
  registered (executes ∷ calls) = registered calls

  -- Over any history of calls, the tasks launched, in their order, and then those still queued are
  -- the ones first queued and then registered: each is launched at most once, and none is lost.
  pub registered-history :
      (calls : List (Call C E)) (tasks : List (Task C E))
      → (history calls tasks).0 ++ (history calls tasks).1 ≡ tasks ++ registered calls
  unfolding history register launch
  registered-history [] tasks = sym (append-nil tasks)
  registered-history (registers name f ∷ calls) tasks =
      registered-history calls (register name f tasks)
      ∙ append_assoc tasks (record { name = name; cleanup = f } ∷ []) (registered calls)
  registered-history (executes ∷ calls) tasks =
      append_assoc tasks (history calls []).0 (history calls []).1
      ∙ ap (λ l. tasks ++ l) (registered-history calls [])

  -- What has been answered, and what those that run will answer.
  abbrev answers : C → Execution C E → List (String × Option E)
  answers ctx s = s.ended ++ map (answer ctx) s.running

  Perm-finish :
      (ctx : C) (e : List (String × Option E)) (j : Task C E) (before after : List (Task C E))
      → Perm
          ((e ++ answer ctx j ∷ []) ++ map (answer ctx) (before ++ after))
          (e ++ map (answer ctx) (before ++ j ∷ after))
  Perm-finish ctx e j before after =
      rw
        (
          append_assoc e (answer ctx j ∷ []) (map (answer ctx) (before ++ after)),
          map-append (answer ctx) before after,
          map-append (answer ctx) before (j ∷ after),
        )
        (Perm.append_left e
          (Perm.symm (perm_middle (map (answer ctx) before) (map (answer ctx) after))))

  Reach-answers :
      (ctx : C) (tasks : List (Task C E)) {s : Execution C E}
      → Reach ctx (launch tasks).1 s
      → Perm (answers ctx s) (map (answer ctx) tasks)
  unfolding launch
  Reach-answers ctx tasks here = Perm.refl (map (answer ctx) tasks)
  Reach-answers ctx tasks (next r (expire e)) = rw e (Reach-answers ctx tasks r)
  Reach-answers ctx tasks (next {t} r (finish j before after e e')) = rw e' (
      Perm.trans (Perm-finish ctx t.ended j before after) (
        subst (λ l. Perm (t.ended ++ map (answer ctx) l) (map (answer ctx) tasks)) e
          (Reach-answers ctx tasks r)))

  -- When `Execute` returns before its context is done, the goroutines have answered for each task
  -- of the queue exactly once, by its own cleanup, in some order.
  pub Returns-answers :
      (ctx : C) (tasks : List (Task C E)) {s : Execution C E}
      → Reach ctx (launch tasks).1 s
      → Returns s
      → s.expired ≡ false
      → Perm s.ended (map (answer ctx) tasks)
  Returns-answers ctx tasks {s} r (inr done) in_time = absurd (ground arith)
  Returns-answers ctx tasks {s} r (inl done) in_time =
      subst (λ l. Perm l (map (answer ctx) tasks))
        (ap (λ l. s.ended ++ map (answer ctx) l) done ∙ append-nil s.ended)
        (Reach-answers ctx tasks r)
