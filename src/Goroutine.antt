-- ===== src/Goroutine.antt =====
-- goroutine/goroutine.go and type.go: steps that run concurrently over their inputs. Keys are byte
-- strings. `V` is what an interface{} holds, `E` the steps' errors, `P` what a panic carries, `C`
-- a context and `F` the floats.
pub mod Options
pub mod Chunks
pub mod Keys
pub mod Record
pub mod Slots
pub mod Jobs
pub mod Plan
pub mod Collect
pub mod Run
pub mod Pool
pub mod Ends
pub mod Merge
mod Tests
use go_utility.Base.{
  ℕ, ◌+◌, Bool, true, false, Option, none, some, List, [], ◌∷◌, ◌++◌, lookup, insert, if◌then◌else◌,
  bytes_eq, ◌==◌,
}
use go_utility.Base.Int.{ℤ, pos}

abbrev pub Key : Type 0
Key = List ℕ

-- The input of a job: one value, a chunk of a batch, or nil.
pub data Input (V : Type 0) : Type 0 where
  single : V → Input V
  batch : List V → Input V
  missing : Input V

-- A call of a step returns an output and an error, or panics.
pub data Outcome (V E P : Type 0) : Type 0 where
  returned : V → Option E → Outcome V E P
  panicked : P → Outcome V E P

-- The errors of a `Response`: a step's or collector's own, the one `executeJob` makes of a panic,
-- and the one `Run` gives a job that it does not start.
pub data Failure (E P : Type 0) : Type 0 where
  step_error : E → Failure E P
  panic_in_step : Key → Key → P → Failure E P
  canceled_before_execute : Failure E P

pub record Response (V E P : Type 0) : Type 0 where
  pub output : Option V
  pub err : Option (Failure E P)
  pub is_execute : Bool

-- `Func`.
abbrev pub Func : Type 0 → Type 0 → Type 0 → Type 0 → Type 0
Func C V E P = C → Input V → Outcome V E P

-- `BatchCollector`.
abbrev pub BatchCollector : Type 0 → Type 0 → Type 0 → Type 0 → Type 0
BatchCollector C V E P = C → Key → List (Response V E P) → V × Option E

-- `option`; the numbers are int32.
pub record ActiveOption : Type 0 where
  pub has_worker : Bool
  pub worker : ℤ
  pub block_error : Bool
  pub is_batch_process : Bool
  pub batch_process : ℤ
  pub panic_as_error : Bool
  pub step_timeout_ms : ℤ

pub record Job (C V E P : Type 0) : Type 0 where
  pub process_key : Key
  pub step_key : Key
  pub input : Input V
  pub fn : Func C V E P

pub record Goroutine (C V E P : Type 0) : Type 0 where
  pub input : List (Key × V)
  pub batch_input : List (Key × List V)
  pub active_option : ActiveOption
  pub steps : List (Key × Func C V E P)
  pub success_process : List Key
  pub failed_process : List Key
  pub output_resp : List (Key × Response V E P)
  pub batch_collectors : List (Key × BatchCollector C V E P)
  pub batch_results : List (Key × List (Response V E P))

-- What `AddBatchInput` is given, as reflection tells it: nil, a slice or array, anything else.
pub data BatchArg (V : Type 0) : Type 0 where
  nil_arg : BatchArg V
  many : List V → BatchArg V
  one : V → BatchArg V

-- A slice of the map, nil where the key is missing.
abbrev pub slice_at {ℓ} : {A : Type ℓ} → Key → List (Key × List A) → List A
slice_at k m = elim (lookup k m) [ none ↦ [] | some xs ↦ xs ]

abbrev pub is_empty : Key → Bool
is_empty k = k == []

-- The loop of `AddBatchInput`: `m[key] = append(m[key], v)` for each element.
append_each {ℓ} : {A : Type ℓ} → Key → List A → List (Key × List A) → List (Key × List A)
append_each key [] m = m
append_each key (v ∷ vs) m = append_each key vs (insert key (slice_at key m ++ v ∷ []) m)

module _ {C V E P : Type 0} where
  unfoldable pub add_step : Key → Option (Func C V E P) → Goroutine C V E P → Goroutine C V E P
  add_step key none g = g
  add_step key (some f) g = if is_empty key then g else record g { steps = insert key f g.steps }

  unfoldable pub add_input : Key → V → Goroutine C V E P → Goroutine C V E P
  add_input key v g = if is_empty key then g else record g { input = insert key v g.input }

  unfoldable pub add_batch_input : Key → BatchArg V → Goroutine C V E P → Goroutine C V E P
  unfolding append_each
  add_batch_input key nil_arg g = g
  add_batch_input key (many vs) g =
      if is_empty key then g else record g { batch_input = append_each key vs g.batch_input }
  add_batch_input key (one v) g =
      if is_empty key then g else record g { batch_input = append_each key (v ∷ []) g.batch_input }

  unfoldable pub add_collector_batch :
      Key → Option (BatchCollector C V E P) → Goroutine C V E P → Goroutine C V E P
  add_collector_batch key none g = g
  add_collector_batch key (some c) g =
      if is_empty key then g else record g { batch_collectors = insert key c g.batch_collectors }

  unfoldable pub is_process_success : Goroutine C V E P → Bool
  is_process_success g = elim (g.failed_process) [ [] ↦ true | _ ↦ false ]

  -- Copies of the two lists; nil where there are none.
  unfoldable pub get_failed_process : Goroutine C V E P → List Key
  get_failed_process g = g.failed_process

  unfoldable pub get_success_process : Goroutine C V E P → List Key
  get_success_process g = g.success_process
