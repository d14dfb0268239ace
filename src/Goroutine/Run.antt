-- ===== src/Goroutine/Run.antt =====
-- `Run`: the loop that starts the workers, as a step relation over its interleavings.
use go_utility.Base.{
  ℕ, ◌<◌, Bool, true, false, ◌≡◌, Option, none, some, List, [], ◌∷◌, ◌++◌, arith, length,
  if◌then◌else◌, ◌&&◌, ◌||◌, not, bytes_eq,
}
use go_utility.Base.Int.{ℤ, pos, ltb_ℤ, pos_part}
use go_utility.Goroutine.{Key, Response, canceled_before_execute, ActiveOption, Job, Goroutine}
use go_utility.Goroutine.Record.{is_nil_error, record_all}
use go_utility.Goroutine.Collect.{apply_batch_collectors}

-- The capacity of the semaphore; `procs` is `runtime.GOMAXPROCS(0)`.
unfoldable pub workers_of : ℤ → ActiveOption → ℕ
workers_of procs opt =
    let workers = if opt.has_worker && ltb_ℤ (pos 0) opt.worker then opt.worker else procs in
    if ltb_ℤ (pos 0) workers then pos_part workers else 1

pub workers_of_pos : (procs : ℤ) (opt : ActiveOption) → 0 < workers_of procs opt
unfolding workers_of
workers_of_pos procs opt = ground arith

-- The state between the steps of `Run`: the jobs that the loop has not come to, the one that has
-- passed the check and waits for a slot of the semaphore, those that run, whether `runCtx` is
-- canceled, and the responses in the order in which they have been recorded.
pub record Pool (C V E P : Type 0) : Type 0 where
  pub todo : List (Job C V E P)
  pub waiting : Option (Job C V E P)
  pub running : List (Job C V E P)
  pub canceled : Bool
  pub log : List (Key × Response V E P)

-- What is recorded for a job that is not started.
abbrev pub skipped : {V E P : Type 0} → Response V E P
skipped = record { output = none; err = some canceled_before_execute; is_execute = false }

module _ {C V E P : Type 0} where
  unfoldable pub start_pool : Bool → List (Job C V E P) → Pool C V E P
  start_pool canceled jobs = record {
    todo = jobs;
    waiting = none;
    running = [];
    canceled = canceled;
    log = [];
  }

  -- `execute` is what a job's execution gives; `none` ends the process.
  module _ (opt : ActiveOption) (workers : ℕ)
      (execute : Job C V E P → Option (Response V E P)) where
    pub data Step (s t : Pool C V E P) : Type 0 where
      -- The loop finds the context canceled and records the job as not executed.
      skip :
          (j : Job C V E P) (js : List (Job C V E P))
          → s.waiting ≡ none
          → s.todo ≡ j ∷ js
          → (opt.block_error && s.canceled) ≡ true
          → t ≡ record s { todo = js; log = s.log ++ (j.process_key, skipped) ∷ [] }
          → Step s t
      -- The loop goes on to the semaphore.
      admit :
          (j : Job C V E P) (js : List (Job C V E P))
          → s.waiting ≡ none
          → s.todo ≡ j ∷ js
          → (opt.block_error && s.canceled) ≡ false
          → t ≡ record s { todo = js; waiting = some j }
          → Step s t
      -- A slot is free: the job's goroutine starts.
      start :
          (j : Job C V E P)
          → s.waiting ≡ some j
          → length s.running < workers
          → t ≡ record s { waiting = none; running = j ∷ s.running }
          → Step s t
      -- Any of the running jobs ends: its response is recorded, a failure may cancel the context,
      -- and its slot is free.
      finish :
          (j : Job C V E P) (before after : List (Job C V E P)) (r : Response V E P)
          → s.running ≡ before ++ j ∷ after
          → execute j ≡ some r
          → t ≡ record s {
            running = before ++ after;
            canceled = s.canceled || (opt.block_error && not (is_nil_error r));
            log = s.log ++ (j.process_key, r) ∷ [];
          }
          → Step s t
      -- The caller's context is canceled.
      cancel : t ≡ record s { canceled = true } → Step s t

    pub data Reach (s : Pool C V E P) : Pool C V E P → Type 0 where
      here : Reach s s
      next : {t u : Pool C V E P} → Reach s t → Step t u → Reach s u

  -- `wg.Wait()` returns.
  pub record IsDone (s : Pool C V E P) : Type 0 where
    pub todo : s.todo ≡ []
    pub waiting : s.waiting ≡ none
    pub running : s.running ≡ []

  -- The results that `Run` resets before the jobs, and what it makes of the log after them.
  unfoldable pub reset : Goroutine C V E P → Goroutine C V E P
  reset g = record g {
    success_process = [];
    failed_process = [];
    output_resp = [];
    batch_results = [];
  }

  unfoldable pub finish_run :
      C → List (Key × Response V E P) → Goroutine C V E P → List (Key × Response V E P)
  unfolding reset record_all apply_batch_collectors
  finish_run ctx log g = (apply_batch_collectors ctx (record_all log (reset g))).output_resp
