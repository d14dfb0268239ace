-- ===== src/Fsm/Hooks.antt =====
-- The three loops of `Fire` over hooks, as relations.
use go_utility.Base.{◌≡◌, refl, ◌⊎◌, inl, inr, none, some, List, [], ◌∷◌, ◌++◌, arith, Option-cases}
use go_utility.Fsm.{HookFunc, run_hooks}

module _ {C X E : Type 0} (ctx : C) where
  -- Every hook succeeds, and together they take the entity from `x` to the index.
  pub data Passes : List (HookFunc C X E) → X → X → Type 0 where
    all_done : {x : X} → Passes [] x x
    step :
        {h : HookFunc C X E} {hooks : List (HookFunc C X E)} {x y z : X}
        → h ctx x ≡ (y, none)
        → Passes hooks y z
        → Passes (h ∷ hooks) x z

  -- Some hook fails with the error, after those before it have succeeded; none after it runs.
  pub data Stops : List (HookFunc C X E) → X → E → X → Type 0 where
    fails :
        {h : HookFunc C X E} {hooks : List (HookFunc C X E)} {x y : X} {e : E}
        → h ctx x ≡ (y, some e)
        → Stops (h ∷ hooks) x e y
    later :
        {h : HookFunc C X E} {hooks : List (HookFunc C X E)} {x y z : X} {e : E}
        → h ctx x ≡ (y, none)
        → Stops hooks y e z
        → Stops (h ∷ hooks) x e z

  pub Passes-run_hooks :
      {hooks : List (HookFunc C X E)} {x y : X}
      → Passes hooks x y
      → run_hooks ctx hooks x ≡ (y, none)
  unfolding run_hooks
  Passes-run_hooks all_done = refl
  Passes-run_hooks (step e p) = let ih = Passes-run_hooks p in ground arith

  pub Stops-run_hooks :
      {hooks : List (HookFunc C X E)} {x y : X} {e : E}
      → Stops hooks x e y
      → run_hooks ctx hooks x ≡ (y, some e)
  unfolding run_hooks
  Stops-run_hooks (fails h) = ground arith
  Stops-run_hooks (later h p) = let ih = Stops-run_hooks p in ground arith

  pub run_hooks_cases :
      (hooks : List (HookFunc C X E)) (x : X)
      → ((y : X) × (run_hooks ctx hooks x ≡ (y, none)) × Passes hooks x y)
        ⊎ ((e : E) × (y : X) × (run_hooks ctx hooks x ≡ (y, some e)) × Stops hooks x e y)
  unfolding run_hooks
  run_hooks_cases [] x = inl (x, refl, all_done)
  run_hooks_cases (h ∷ hooks) x = elim (Option-cases (h ctx x).1) [
    | inl ok ↦ elim (run_hooks_cases hooks (h ctx x).0) [
      | inl (y, r, p) ↦ inl (y, ground arith, step (ground arith) p)
      | inr (e, y, r, p) ↦ inr (e, y, ground arith, later (ground arith) p)
    ]
    | inr (e, bad) ↦ inr (e, (h ctx x).0, ground arith, fails (ground arith))
  ]

  -- Two loops in a row are one loop over the joined lists.
  pub run_hooks-append :
      (hooks more : List (HookFunc C X E)) (x : X)
      → run_hooks ctx (hooks ++ more) x ≡ (elim ((run_hooks ctx hooks x).1) [
        | none ↦ run_hooks ctx more (run_hooks ctx hooks x).0
        | some e ↦ run_hooks ctx hooks x
      ])
  unfolding run_hooks
  run_hooks-append [] more x = refl
  run_hooks-append (h ∷ hooks) more x = ground (arith, run_hooks-append hooks more (h ctx x).0)
