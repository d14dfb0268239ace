-- ===== src/Goroutine/Plan.antt =====
-- The jobs of a run: what `buildJobs` plans for each step, and what one job's execution gives.
use go_utility.Base.{
  ℕ, ◌+◌, true, false, ◌≡◌, ◌≢◌, refl, ◌⊎◌, inl, inr, ◌↔◌, Option, none, some, List, [], ◌∷◌, ◌++◌,
  arith, lookup, if◌then◌else◌, bytes_eq, Bool-cases, List-cases, append-nil, append_assoc, All,
  ◌==◌, beq_refl, eq_of_beq, IsMap,
}
use mathlib.Core.List.{flatten}
use mathlib.Core.Option
use go_utility.Base.Int.{ℤ}
use go_utility.Goroutine.{
  Key, batch, Outcome, returned, panicked, step_error, panic_in_step, Func, ActiveOption, Job,
  slice_at,
}
use go_utility.Goroutine.Chunks.{chunk_interfaces, chunk_interfaces_lem}
use go_utility.Goroutine.Jobs.{chunk_jobs, step_jobs, build_jobs, job_context, execute_job}

Outcome-cases :
    {V E P : Type 0} (o : Outcome V E P)
    → ((out : V) × (e : Option E) × (o ≡ returned out e)) ⊎ ((p : P) × (o ≡ panicked p))
Outcome-cases (returned out e) = inl (out, e, refl)
Outcome-cases (panicked p) = inr (p, refl)

module _ {C V E P : Type 0} where
  -- A job's execution gives the step's own output and error, or its panic as an error, marked as
  -- executed; and it gives no response exactly when the step panics and panics are not errors.
  pub execute_job_lem :
      (with_timeout : C → ℤ → C) (ctx : C) (j : Job C V E P) (opt : ActiveOption)
      → ((out : V) (e : Option E)
          → j.fn (job_context with_timeout ctx opt) j.input ≡ returned out e
          → execute_job with_timeout ctx j opt
            ≡ some (record { output = some out; err = Option.map step_error e; is_execute = true }))
        × ((p : P)
            → j.fn (job_context with_timeout ctx opt) j.input ≡ panicked p
            → opt.panic_as_error ≡ true
            → execute_job with_timeout ctx j opt
              ≡ some (record {
                output = none;
                err = some (panic_in_step j.step_key j.process_key p);
                is_execute = true;
              }))
        × ((execute_job with_timeout ctx j opt ≡ none) ↔ (
            (opt.panic_as_error ≡ false)
            × ((p : P) × (j.fn (job_context with_timeout ctx opt) j.input ≡ panicked p))))
  unfolding execute_job
  execute_job_lem with_timeout ctx j opt = (
    λ out e h. rw (h, execute_job),
    λ p h on. rw (h, execute_job, on),
    elim (Outcome-cases (j.fn (job_context with_timeout ctx opt) j.input)) [
      | inl (out, e, h) ↦ ((λ q. absurd (ground arith)), λ (off, (p, q)). absurd (ground arith))
      | inr (p, h) ↦ ((λ q. (ground arith, (p, h))), λ (off, q). ground arith)
    ],
  )

  -- The items that the jobs of a step are given as batches.
  abbrev pub batch_items : Job C V E P → List V
  batch_items j = elim (j.input) [ batch vs ↦ vs | _ ↦ [] ]

  abbrev pub items_of : Key → List (Job C V E P) → List V
  items_of k [] = []
  items_of k (j ∷ js) = if j.step_key == k then batch_items j ++ items_of k js else items_of k js

  items_of-append :
      (k : Key) (xs ys : List (Job C V E P))
      → items_of k (xs ++ ys) ≡ items_of k xs ++ items_of k ys
  items_of-append k [] ys = refl
  items_of-append k (j ∷ xs) ys =
      ground (
        arith,
        items_of-append k xs ys,
        append_assoc (batch_items j) (items_of k xs) (items_of k ys),
      )

  items_of-chunk_jobs :
      (k : Key) (f : Func C V E P) (i : ℕ) (cs : List (List V))
      → items_of k (chunk_jobs k f i cs) ≡ flatten cs
  unfolding chunk_jobs flatten
  items_of-chunk_jobs k f i [] = refl
  items_of-chunk_jobs k f i (c ∷ cs) =
      ground (arith, beq_refl k, items_of-chunk_jobs k f (i + 1) cs)

  items_of-step_jobs :
      (k : Key) (f : Func C V E P) (input : List (Key × V)) (batch_input : List (Key × List V))
      (opt : ActiveOption)
      → items_of k (step_jobs k f input batch_input opt) ≡ slice_at k batch_input
  unfolding step_jobs
  items_of-step_jobs k f input batch_input opt = elim (List-cases (slice_at k batch_input)) [
    | inl e ↦ ground (arith, beq_refl k)
    | inr (x, xs, e) ↦
        rw (e, step_jobs)
          (ground (
            arith,
            beq_refl k,
            append-nil (x ∷ xs),
            items_of-chunk_jobs k f 0 (chunk_interfaces (x ∷ xs) opt.batch_process),
            (chunk_interfaces_lem x xs opt.batch_process).0,
          ))
  ]

  -- All jobs of the list are the step's.
  abbrev IsOf : Key → List (Job C V E P) → Type 0
  IsOf k js = All (λ j. j.step_key ≡ k) js

  chunk_jobs-IsOf :
      (k : Key) (f : Func C V E P) (i : ℕ) (cs : List (List V)) → IsOf k (chunk_jobs k f i cs)
  unfolding chunk_jobs
  chunk_jobs-IsOf k f i [] = tt
  chunk_jobs-IsOf k f i (c ∷ cs) = (refl, chunk_jobs-IsOf k f (i + 1) cs)

  step_jobs-IsOf :
      (k : Key) (f : Func C V E P) (input : List (Key × V)) (batch_input : List (Key × List V))
      (opt : ActiveOption)
      → IsOf k (step_jobs k f input batch_input opt)
  unfolding step_jobs
  step_jobs-IsOf k f input batch_input opt = elim (List-cases (slice_at k batch_input)) [
    | inl e ↦ ground arith
    | inr (x, xs, e) ↦
        ground (arith, chunk_jobs-IsOf k f 0 (chunk_interfaces (x ∷ xs) opt.batch_process))
  ]

  items_of-other : (k j : Key) (js : List (Job C V E P)) → k ≢ j → IsOf j js → items_of k js ≡ []
  items_of-other k j [] ne h = refl
  items_of-other k j (x ∷ js) ne h =
      ground (arith, items_of-other k j js ne h.1, bytes_eq.beq_iff x.step_key k, h.0)

  -- The jobs that are planned for a step hold every item of its batch input once, in order, whatever the
  -- batch size, and no items are planned for a key without a step.
  pub items_of-build_jobs :
      (k : Key) (steps : List (Key × Func C V E P)) (input : List (Key × V))
      (batch_input : List (Key × List V)) (opt : ActiveOption)
      → IsMap steps
      → items_of k (build_jobs steps input batch_input opt)
        ≡ (elim (lookup k steps) [ none ↦ [] | some f ↦ slice_at k batch_input ])
  unfolding build_jobs
  items_of-build_jobs k [] input batch_input opt m = refl
  items_of-build_jobs k ((j, f) ∷ steps) input batch_input opt m =
      let js = step_jobs j f input batch_input opt in
      let rest = build_jobs steps input batch_input opt in
      elim (Bool-cases (j == k)) [
        | inl same ↦
            let e = eq_of_beq j k same in
            ground (
              arith,
              items_of-append k js rest,
              items_of-step_jobs j f input batch_input opt,
              items_of-build_jobs k steps input batch_input opt m.1,
              m.0,
              append-nil (slice_at k batch_input),
            )
        | inr other ↦ ground (
          arith,
          items_of-append k js rest,
          items_of-other k j js (λ e. ground (arith, beq_refl k))
              (step_jobs-IsOf j f input batch_input opt),
          items_of-build_jobs k steps input batch_input opt m.1,
        )
      ]
