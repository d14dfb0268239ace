-- ===== src/Goroutine/Tests.antt =====
-- Runs of the orchestrator's parts, and the theorems at concrete inputs.
use go_utility.Base.{
  ℕ, zero, suc, ◌+◌, ◌*◌, ◌≤◌, ◌<◌, true, false, ◌≡◌, refl, Option, none, some, List, [], ◌∷◌,
  arith, get_elem?, lookup, if◌then◌else◌, bytes_eq, ltb, All, ap, IsMap,
}
use go_utility.Base.Int.{ℤ, pos}
use go_utility.Base.Text.{codes, index, itoa, atoi}
use go_utility.Goroutine.{
  Key, single, batch, missing, returned, panicked, Response, Func, BatchCollector, ActiveOption,
  Job, Goroutine, add_step, add_input, add_batch_input, add_collector_batch, is_process_success,
}
use go_utility.Goroutine.Options.{
  worker, block_error, uint64, other, set_options, new_goroutine, blank, to_int32,
}
use go_utility.Goroutine.Chunks.{chunk_interfaces}
use go_utility.Goroutine.Keys.{
  sep, batch_key, batch_all_key, parse_batch_process_key, parse-batch_key,
}
use go_utility.Goroutine.Jobs.{build_jobs, execute_job}
use go_utility.Goroutine.Plan.{items_of, items_of-build_jobs}
use go_utility.Goroutine.Record.{record_response, record_all}
use go_utility.Goroutine.Collect.{merged, apply_batch_collectors}
use go_utility.Goroutine.Run.{
  Pool, start_pool, admit, start, finish, Reach, here, next, IsDone, finish_run,
}
use go_utility.Goroutine.Ends.{run_ends}
use go_utility.Goroutine.Pool.{IsAnswer, Reach-bounded, count, log_keys, keys, IsDone-tally}
use go_utility.Goroutine.Merge.{Answers, finish_run-collected}

program : Unit {0}
unfolding add_step add_input add_batch_input add_collector_batch is_process_success set_options
    new_goroutine chunk_interfaces batch_key batch_all_key parse_batch_process_key itoa atoi index
    build_jobs execute_job record_response record_all apply_batch_collectors finish_run to_int32
program = tt

abbrev a : Key
a = codes "a"

-- A step over numbers: it adds a batch, doubles one number, and panics without input.
abbrev sum_step : Func ℕ ℕ ℕ ℕ
sum_step ctx (batch []) = returned 0 none
sum_step ctx (batch (v ∷ vs)) = returned v none
sum_step ctx (single v) = if ltb v 100 then returned (v * 2) none else returned v (some 7)
sum_step ctx missing = panicked 9

abbrev first_outputs : List (Response ℕ ℕ ℕ) → ℕ
first_outputs [] = 0
first_outputs (r ∷ rs) = (elim (r.output) [ none ↦ 0 | some v ↦ v ]) + 10 * first_outputs rs

abbrev join : BatchCollector ℕ ℕ ℕ ℕ
join ctx k rs = (first_outputs rs, none)

abbrev no_float : ℕ → ℤ
no_float f = pos f

abbrev options : ActiveOption
options = record {
  has_worker = true;
  worker = pos 2;
  block_error = false;
  is_batch_process = true;
  batch_process = pos 2;
  panic_as_error = true;
  step_timeout_ms = pos 0;
}

parts :
    (chunk_interfaces {A = ℕ} (1 ∷ 2 ∷ 3 ∷ []) (pos 2) ≡ (1 ∷ 2 ∷ []) ∷ (3 ∷ []) ∷ [])
    × (batch_key a 12 ≡ codes "a#batch_12")
    × (parse_batch_process_key (codes "a#batch_12") ≡ some (a, 12))
    × (parse_batch_process_key (codes "a#batch_0") ≡ none)
    × (parse_batch_process_key (codes "a#batch_x") ≡ none)
    × (parse_batch_process_key (codes "x#batch_1#batch_2") ≡ none)
    × ((set_options no_float ((worker, uint64 4294967301) ∷ (block_error, other) ∷ []) options).0
        ≡ record options { worker = pos 5 })
unfolding program
parts = (refl, refl, refl, refl, refl, refl, refl)

abbrev response : ℕ → Response ℕ ℕ ℕ
response v = record { output = some v; err = none; is_execute = true }

abbrev log : List (Key × Response ℕ ℕ ℕ)
log = (batch_key a 2, response 5) ∷ (batch_key a 1, response 4) ∷ []

abbrev empty : Goroutine ℕ ℕ ℕ ℕ
empty = blank

abbrev engine : Goroutine ℕ ℕ ℕ ℕ
engine = record empty {
  active_option = options;
  steps = (a, sum_step) ∷ [];
  batch_input = (a, 4 ∷ 6 ∷ 5 ∷ []) ∷ [];
  batch_collectors = (a, join) ∷ [];
}

whole_run : finish_run 0 log engine ≡ (a, response 54) ∷ []
unfolding program
whole_run = refl

-- Without the batch option the batch is one job, whose response no collector is given.
unsplit_run :
    finish_run 0 ((batch_all_key a, response 4) ∷ []) engine
    ≡ (batch_all_key a, response 4) ∷ (a, response 0) ∷ []
unfolding program
unsplit_run = refl

a_clean : index sep a ≡ none
unfolding index
a_clean = refl

parse-batch_key_example : parse_batch_process_key (batch_key a 12) ≡ some (a, 12)
parse-batch_key_example = parse-batch_key a 12 a_clean (omega arith) (omega arith)

items_of-build_jobs_example :
    items_of a (build_jobs engine.steps [] engine.batch_input options) ≡ 4 ∷ 6 ∷ 5 ∷ []
items_of-build_jobs_example =
    items_of-build_jobs a engine.steps [] engine.batch_input options (refl, tt)

abbrev empty_job : Job ℕ ℕ ℕ ℕ
empty_job = record { process_key = a; step_key = a; input = missing; fn = sum_step }

log_found :
    (i : ℕ) → i < 2 → lookup (batch_key a (suc i)) log ≡ get_elem? (response 4 ∷ response 5 ∷ []) i
unfolding program
log_found zero h = refl
log_found (suc zero) h = refl
log_found (suc (suc i)) h = absurd (omega arith)

log_once : IsMap log
unfolding program
log_once = (refl, (refl, tt))

read_own :
    (n idx : ℕ) → 0 < n → n < 10 → parse_batch_process_key (batch_key a n) ≡ some (a, idx) → n ≡ idx
read_own n idx h lt e = ground (arith, parse-batch_key a n a_clean h, e)

log-Answers : Answers a (response 4 ∷ response 5 ∷ []) log
log-Answers = record {
  clean = a_clean;
  few = omega arith;
  found = log_found;
  once = log_once;
  own = (
    λ idx e. ap (batch_key a) (read_own 2 idx (omega arith) (omega arith) e),
    (λ idx e. ap (batch_key a) (read_own 1 idx (omega arith) (omega arith) e), tt),
  );
  within = (
    λ idx e. omega (arith, read_own 2 idx (omega arith) (omega arith) e),
    (λ idx e. omega (arith, read_own 1 idx (omega arith) (omega arith) e), tt),
  );
}

finish_run-collected_example :
    lookup a (finish_run 0 log engine) ≡ some (merged 0 a join (response 4 ∷ response 5 ∷ []))
finish_run-collected_example =
    finish_run-collected 0 a join (response 4 ∷ response 5 ∷ []) log engine log-Answers (refl, tt)
      refl

abbrev job : Job ℕ ℕ ℕ ℕ
job = record { process_key = a; step_key = a; input = single 3; fn = sum_step }

abbrev run_job : Job ℕ ℕ ℕ ℕ → Option (Response ℕ ℕ ℕ)
run_job j = some (response 6)

one_job : Reach options 1 run_job (start_pool false (job ∷ [])) (record {
  todo = [];
  waiting = none;
  running = [];
  canceled = false;
  log = (a, response 6) ∷ [];
})
unfolding start_pool
one_job =
    next (next (next here (admit job [] refl refl refl refl)) (start job refl (omega arith) refl))
      (finish job [] [] (response 6) refl refl refl)

Reach-bounded_example : (0 ≤ 1) × All (IsAnswer options 1 run_job) ((a, response 6) ∷ [])
Reach-bounded_example = Reach-bounded options 1 run_job false (job ∷ []) one_job

IsDone-tally_example : count a (log_keys ((a, response 6) ∷ [])) ≡ count a (keys (job ∷ []))
IsDone-tally_example =
    IsDone-tally options 1 run_job false (job ∷ []) a one_job
      (record { todo = refl; waiting = refl; running = refl })

run_ends_example :
    (t : Pool ℕ ℕ ℕ ℕ) × Reach options 1 run_job (start_pool false (job ∷ [])) t
    × IsDone t
    × (count a (log_keys t.log) ≡ count a (keys (job ∷ [])))
run_ends_example =
    run_ends options 1 run_job false (job ∷ []) a (omega arith) (λ j. (response 6, refl)) here
