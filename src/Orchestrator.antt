-- ===== src/Orchestrator.antt =====
-- v2/goroutinew/orchestrator.go: handlers run over single and batch inputs by a bounded number of
-- workers. `V` is what an `any` holds, `E` an error.
pub mod Slots
mod Tests
use go_utility.Base.{
  ℕ, zero, suc, ◌+◌, String, Bool, true, false, Option, none, some, List, [], ◌∷◌, ◌++◌, map,
  length, set, replicate, lookup, insert, if◌then◌else◌, string_eq, ltb,
}

-- How a handler ends: it returns a result and an error, or it panics.
pub data Outcome (V E : Type 0) : Type 0 where
  returned : V → Option E → Outcome V E
  panicked : Outcome V E

-- `StepFunc`, at the context that the handlers of a run share.
abbrev pub StepFunc : Type 0 → Type 0 → Type 0
StepFunc V E = V → Outcome V E

-- An entry of the `results` map: an `any`, which is a batch's slice or a handler's own value.
pub data Entry (V : Type 0) : Type 0 where
  value : V → Entry V
  slice : List (Option V) → Entry V

-- A worker's error, with the key that the message names, or the deadline's.
pub data Failure (E : Type 0) : Type 0 where
  step_failed : String → E → Failure E
  deadline_exceeded : Failure E

pub record Orchestrator (V E : Type 0) : Type 0 where
  pub steps : List (String × StepFunc V E)
  pub single_input : List (String × V)
  pub batch_input : List (String × List V)
  pub results : List (String × Entry V)
  pub errors : List (Failure E)

-- `job`; `batch_index` is `none` where the source has -1.
pub record Job (V E : Type 0) : Type 0 where
  pub key : String
  pub batch_index : Option ℕ
  pub input : V
  pub handler : StepFunc V E

-- `slice[i] = res`; `none` is the panic of an index past the end.
abbrev put_slot :
    {V : Type 0}
    → String
    → ℕ
    → V
    → List (Option V)
    → List (String × Entry V)
    → Option (List (String × Entry V))
put_slot k i res vs m =
    if ltb i (length vs) then some (insert k (slice (set vs i (some res))) m) else none

-- What a worker does with its job's result; `none` is a panic: of the type assertion where the
-- entry is no slice, or of the index.
unfoldable pub store_result :
    {V : Type 0}
    → String
    → Option ℕ
    → V
    → List (String × Entry V)
    → Option (List (String × Entry V))
store_result k none res m = some (insert k (value res) m)
store_result k (some i) res m = elim (lookup k m) [
  | none ↦ some m
  | some (value v) ↦ none
  | some (slice vs) ↦ put_slot k i res vs m
]

module _ {V E : Type 0} where
  unfoldable pub new : Orchestrator V E
  new = record { steps = []; single_input = []; batch_input = []; results = []; errors = [] }

  unfoldable pub add_step : String → StepFunc V E → Orchestrator V E → Orchestrator V E
  add_step key handler o = record o { steps = insert key handler o.steps }

  unfoldable pub add_input : String → V → Orchestrator V E → Orchestrator V E
  add_input key input o = record o { single_input = insert key input o.single_input }

  unfoldable pub add_batch_input : String → List V → Orchestrator V E → Orchestrator V E
  add_batch_input key inputs o = record o { batch_input = insert key inputs o.batch_input }

  -- The first loop of `Run`, in the order of one iteration over the map.
  unfoldable pub single_jobs : List (String × StepFunc V E) → List (String × V) → List (Job V E)
  single_jobs steps [] = []
  single_jobs steps ((k, v) ∷ inputs) = elim (lookup k steps) [
    | none ↦ single_jobs steps inputs
    | some h ↦
        record { key = k; batch_index = none; input = v; handler = h } ∷ single_jobs steps inputs
  ]

  unfoldable pub batch_jobs_from : String → StepFunc V E → ℕ → List V → List (Job V E)
  batch_jobs_from k h i [] = []
  batch_jobs_from k h i (v ∷ vs) =
      record { key = k; batch_index = some i; input = v; handler = h }
      ∷ batch_jobs_from k h (suc i) vs

  -- The second loop: it stores an empty slice for each batch, and queues its jobs.
  unfoldable pub queue_batches :
      List (String × StepFunc V E)
      → List (String × List V)
      → List (String × Entry V)
      → List (String × Entry V) × List (Job V E)
  unfolding batch_jobs_from
  queue_batches steps [] results = (results, [])
  queue_batches steps ((k, vs) ∷ inputs) results = elim (lookup k steps) [
    | none ↦ queue_batches steps inputs results
    | some h ↦
        let (results', jobs) =
          queue_batches steps inputs (insert k (slice (replicate (length vs) none)) results) in
        (results', batch_jobs_from k h 0 vs ++ jobs)
  ]

  -- The body of a worker's goroutine. It recovers no panic: `none` is the end of the process.
  unfoldable pub run_job : Job V E → Orchestrator V E → Option (Orchestrator V E)
  unfolding store_result
  run_job j o = elim (j.handler j.input) [
    | panicked ↦ none
    | returned res (some e) ↦ some (record o { errors = o.errors ++ step_failed j.key e ∷ [] })
    | returned res none ↦ elim (store_result j.key j.batch_index res o.results) [
      | none ↦ none
      | some m ↦ some (record o { results = m })
    ]
  ]

  -- The workers' goroutines, in the order in which they store their results.
  unfoldable pub run_jobs : List (Job V E) → Orchestrator V E → Option (Orchestrator V E)
  unfolding run_job
  run_jobs [] o = some o
  run_jobs (j ∷ js) o = elim (run_job j o) [ none ↦ none | some o' ↦ run_jobs js o' ]

  -- The queue that `Run` builds, with the slices stored.
  unfoldable pub queue : Orchestrator V E → Orchestrator V E × List (Job V E)
  unfolding single_jobs queue_batches
  queue o =
      let singles = single_jobs o.steps o.single_input in
      let (results, batches) = queue_batches o.steps o.batch_input o.results in
      (record o { results = results }, singles ++ batches)

  -- The end of `Run`, once all workers are done: the deadline's error, and the first error.
  unfoldable pub get_error : Orchestrator V E → Option (Failure E)
  get_error o = elim (o.errors) [ [] ↦ none | e ∷ es ↦ some e ]

  unfoldable pub finish : Bool → Orchestrator V E → Orchestrator V E × Option (Failure E)
  unfolding get_error
  finish deadline o =
      let o' = if deadline then record o { errors = o.errors ++ deadline_exceeded ∷ [] } else o in
      (o', get_error o')

  unfoldable pub get_resp : String → Orchestrator V E → Option (Entry V)
  get_resp key o = lookup key o.results

  unfoldable pub get_errors : Orchestrator V E → List (Failure E)
  get_errors o = o.errors
