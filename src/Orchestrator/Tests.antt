-- ===== src/Orchestrator/Tests.antt =====
-- Runs of orchestrator.go, and an example of each result about it.
use go_utility.Base.{
  ℕ, ◌+◌, String, Option, none, some, [], ◌∷◌, ◌≡◌, refl, inl, inr, string_eq, if◌then◌else◌,
  nat_beq, arith,
}
use go_utility.Orchestrator.{
  StepFunc, returned, Orchestrator, value, slice, Job, step_failed, new, add_step, add_input,
  add_batch_input, queue, run_jobs,
}
use go_utility.Orchestrator.Slots.{Fits, slot, run_jobs-slot}

-- Twice the input; an error for 13.
abbrev twice : StepFunc ℕ String
twice n = if nat_beq n 13 then returned 0 (some "unlucky") else returned (n + n) none

abbrev batch_job : ℕ → ℕ → Job ℕ String
batch_job i n = record { key = "twice"; batch_index = some i; input = n; handler = twice }

abbrev single_job : Job ℕ String
single_job = record { key = "once"; batch_index = none; input = 4; handler = twice }

abbrev configured : Orchestrator ℕ String
unfolding new add_step add_input add_batch_input
configured =
    add_batch_input "twice" (1 ∷ 13 ∷ 3 ∷ [])
      (add_input "once" 4 (add_step "once" twice (add_step "twice" twice new)))

-- `Run` queues the single input, and the three of the batch over a slice of three empty slots.
configured-queue : queue configured ≡ (
  record configured { results = ("twice", slice (none ∷ none ∷ none ∷ [])) ∷ [] },
  single_job ∷ batch_job 0 1 ∷ batch_job 1 13 ∷ batch_job 2 3 ∷ [],
)
unfolding queue configured
configured-queue = refl

-- The state that `Run` starts its workers in, and the batches that it has made room for.
abbrev queued : Orchestrator ℕ String
unfolding configured
queued = record configured { results = ("twice", slice (none ∷ none ∷ none ∷ [])) ∷ [] }

abbrev batches : String → Option ℕ
batches k = if string_eq.beq k "twice" then some 3 else none

queued-Fits : Fits batches queued
unfolding queued
queued-Fits k n h =
    (none ∷ none ∷ none ∷ [], ground (arith, string_eq.beq_iff k "twice"), ground arith)

single_first :
    run_jobs (single_job ∷ batch_job 1 13 ∷ batch_job 2 3 ∷ batch_job 0 1 ∷ []) queued
    ≡ some (record configured {
      results = ("twice", slice (some 2 ∷ none ∷ some 6 ∷ [])) ∷ ("once", value 8) ∷ [];
      errors = step_failed "twice" "unlucky" ∷ [];
    })
unfolding run_jobs queued configured
single_first = refl

run_jobs-slot_example :
    (o : Orchestrator ℕ String) × (run_jobs
        (single_job ∷ batch_job 1 13 ∷ batch_job 2 3 ∷ batch_job 0 1 ∷ [])
        queued
      ≡ some o)
    × (slot "twice" 2 o ≡ some 6)
run_jobs-slot_example =
    run_jobs-slot batches (single_job ∷ batch_job 1 13 ∷ []) (batch_job 0 1 ∷ []) (batch_job 2 3) 2
      3 6 queued queued-Fits
      (
        ((8, none, refl), inr (refl, refl)),
        (((0, some "unlucky", refl), inl (1, 3, refl, refl, omega arith)), tt),
      )
      (((2, none, refl), inl (0, 3, refl, refl, omega arith)), tt) (refl, refl, omega arith) refl
      ((λ s. ground arith), tt)

-- A single input under the key of a batch.
abbrev intruder : Job ℕ String
intruder = record { key = "twice"; batch_index = none; input = 4; handler = twice }
