-- ===== src/Goroutine/Jobs.antt =====
-- `buildJobs` and `executeJob`.
use go_utility.Base.{
  ℕ, ◌+◌, true, Option, none, some, List, [], ◌∷◌, ◌++◌, lookup, if◌then◌else◌, bytes_eq, ◌&&◌,
}
use mathlib.Core.Option
use go_utility.Base.Int.{ℤ, pos, ltb_ℤ}
use go_utility.Goroutine.{
  Key, Input, single, batch, missing, returned, panicked, step_error, panic_in_step, Response, Func,
  ActiveOption, Job, slice_at,
}
use go_utility.Goroutine.Chunks.{chunk_interfaces}
use go_utility.Goroutine.Keys.{batch_key, batch_all_key}

-- The context of a job, with the step's timeout if there is one.
abbrev pub job_context : {C : Type 0} → (C → ℤ → C) → C → ActiveOption → C
job_context with_timeout ctx opt =
    if ltb_ℤ (pos 0) opt.step_timeout_ms then with_timeout ctx opt.step_timeout_ms else ctx

module _ {C V E P : Type 0} where
  -- The jobs of a step's chunks; the first has index `i + 1`.
  unfoldable pub chunk_jobs : Key → Func C V E P → ℕ → List (List V) → List (Job C V E P)
  chunk_jobs k f i [] = []
  chunk_jobs k f i (c ∷ cs) =
      record { process_key = batch_key k (i + 1); step_key = k; input = batch c; fn = f }
      ∷ chunk_jobs k f (i + 1) cs

  unfoldable pub batch_jobs : Key → Func C V E P → List V → ActiveOption → List (Job C V E P)
  unfolding chunk_jobs
  batch_jobs k f items opt =
      if opt.is_batch_process && ltb_ℤ (pos 0) opt.batch_process
      then chunk_jobs k f 0 (chunk_interfaces items opt.batch_process)
      else record { process_key = batch_all_key k; step_key = k; input = batch items; fn = f } ∷ []

  abbrev single_job : Key → Func C V E P → Input V → List (Job C V E P)
  single_job k f v = record { process_key = k; step_key = k; input = v; fn = f } ∷ []

  unfoldable pub step_jobs :
      Key → Func C V E P → List (Key × V) → List (Key × List V) → ActiveOption → List (Job C V E P)
  unfolding batch_jobs
  step_jobs k f input batch_input opt = elim (slice_at k batch_input) [
    | x ∷ xs ↦ batch_jobs k f (x ∷ xs) opt
    | [] ↦ elim (lookup k input) [
      | some v ↦ single_job k f (single v)
      | none ↦ single_job k f missing
    ]
  ]

  -- The order of `steps` is that of the iteration over the map.
  unfoldable pub build_jobs :
      List (Key × Func C V E P)
      → List (Key × V)
      → List (Key × List V)
      → ActiveOption
      → List (Job C V E P)
  unfolding step_jobs
  build_jobs [] input batch_input opt = []
  build_jobs ((k, f) ∷ steps) input batch_input opt =
      step_jobs k f input batch_input opt ++ build_jobs steps input batch_input opt

  -- `executeJob`; `none` is a panic that nothing recovers. `with_timeout` is `context.WithTimeout`.
  unfoldable pub execute_job :
      (C → ℤ → C) → C → Job C V E P → ActiveOption → Option (Response V E P)
  execute_job with_timeout ctx j opt = elim (j.fn (job_context with_timeout ctx opt) j.input) [
    | returned out err ↦
        some (record { output = some out; err = Option.map step_error err; is_execute = true })
    | panicked p ↦
        if opt.panic_as_error
        then some (record {
          output = none;
          err = some (panic_in_step j.step_key j.process_key p);
          is_execute = true;
        })
        else none
  ]
