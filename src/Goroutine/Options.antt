-- ===== src/Goroutine/Options.antt =====
-- `setOptions`, `AddOptions` and `NewGoroutine`.
use go_utility.Base.{
  ℕ, ◌-◌, ◌%◌, String, Bool, true, false, ◌≡◌, refl, ◌⊎◌, inl, inr, Option, none, some, List, [],
  ◌∷◌, ◌++◌, arith, ltb, if◌then◌else◌,
}
use go_utility.Base.Int.{ℤ, pos, negsuc, ltb_ℤ, ◌<ℤ◌, ◌≤ℤ◌}
use go_utility.Goroutine.{ActiveOption, Goroutine}

-- `OptionKey`: the five known names, and any other.
pub data OptionKey : Type 0 where
  worker block_error batch_process panic_as_error step_timeout_ms : OptionKey
  unknown : String → OptionKey

-- The dynamic types that `isNumber` and `isBoolean` tell apart.
pub data OptionValue (F : Type 0) : Type 0 where
  int int32 int64 : ℤ → OptionValue F
  uint uint32 uint64 : ℕ → OptionValue F
  float64 float32 : F → OptionValue F
  bool : Bool → OptionValue F
  other : OptionValue F

-- `int32(v)` of an integer: its residue mod 2^32 in two's complement.
unfoldable pub to_int32 : ℤ → ℤ
to_int32 (pos n) =
    let r = n % 4294967296 in if ltb r 2147483648 then pos r else negsuc (4294967295 - r)
to_int32 (negsuc n) =
    let r = n % 4294967296 in if ltb r 2147483648 then negsuc r else pos (4294967295 - r)

pub data OptionError : Type 0 where
  bad_worker bad_block_error bad_batch_process bad_panic_as_error bad_step_timeout_ms : OptionError

-- What `Run` relies on: a worker or batch number that is switched on is positive, and the timeout
-- is not negative.
pub record IsValid (o : ActiveOption) : Type 0 where
  pub worker_pos : o.has_worker ≡ true → pos 0 <ℤ o.worker
  pub batch_pos : o.is_batch_process ≡ true → pos 0 <ℤ o.batch_process
  pub timeout_nonneg : pos 0 ≤ℤ o.step_timeout_ms

-- The literal of `NewGoroutine`.
abbrev pub blank : {C V E P : Type 0} → Goroutine C V E P
blank = record {
  input = [];
  batch_input = [];
  active_option = record {
    has_worker = false;
    worker = pos 0;
    block_error = false;
    is_batch_process = false;
    batch_process = pos 0;
    panic_as_error = true;
    step_timeout_ms = pos 0;
  };
  steps = [];
  success_process = [];
  failed_process = [];
  output_resp = [];
  batch_collectors = [];
  batch_results = [];
}

-- How a float is cut to an int32 is the machine's, the parameter `trunc`.
module _ {F : Type 0} (trunc : F → ℤ) where
  is_number : OptionValue F → Option ℤ
  is_number (int v) = some (to_int32 v)
  is_number (float64 v) = some (trunc v)
  is_number (int32 v) = some v
  is_number (int64 v) = some (to_int32 v)
  is_number (float32 v) = some (trunc v)
  is_number (uint v) = some (to_int32 (pos v))
  is_number (uint32 v) = some (to_int32 (pos v))
  is_number (uint64 v) = some (to_int32 (pos v))
  is_number _ = none

  is_boolean : OptionValue F → Option Bool
  is_boolean (bool b) = some b
  is_boolean _ = none

  -- One round of the loop: the option's effect, or the error at which the loop returns.
  set_option : OptionKey × OptionValue F → ActiveOption → ActiveOption × Option OptionError
  unfolding is_number is_boolean
  set_option (worker, v) o = elim (is_number v) [
    | none ↦ (o, some bad_worker)
    | some n ↦
        if ltb_ℤ (pos 0) n
        then (record o { has_worker = true; worker = n }, none)
        else (o, some bad_worker)
  ]
  set_option (block_error, v) o = elim (is_boolean v) [
    | none ↦ (o, some bad_block_error)
    | some b ↦ (record o { block_error = b }, none)
  ]
  set_option (batch_process, v) o = elim (is_number v) [
    | none ↦ (o, some bad_batch_process)
    | some n ↦
        if ltb_ℤ (pos 0) n
        then (record o { is_batch_process = true; batch_process = n }, none)
        else (o, some bad_batch_process)
  ]
  set_option (panic_as_error, v) o = elim (is_boolean v) [
    | none ↦ (o, some bad_panic_as_error)
    | some b ↦ (record o { panic_as_error = b }, none)
  ]
  set_option (step_timeout_ms, v) o = elim (is_number v) [
    | none ↦ (o, some bad_step_timeout_ms)
    | some n ↦
        if ltb_ℤ n (pos 0)
        then (o, some bad_step_timeout_ms)
        else (record o { step_timeout_ms = n }, none)
  ]
  set_option (unknown name, v) o = (o, none)

  -- `setOptions`: the options before the one that fails stay applied. The map of the unknown ones,
  -- which its callers drop, is left out.
  unfoldable pub set_options :
      List (OptionKey × OptionValue F) → ActiveOption → ActiveOption × Option OptionError
  unfolding set_option
  set_options [] o = (o, none)
  set_options (opt ∷ opts) o =
      let (o', err) = set_option opt o in
      elim err [ none ↦ set_options opts o' | some e ↦ (o', some e) ]

  module _ {C V E P : Type 0} where
    -- `AddOptions` drops the error.
    unfoldable pub add_options :
        List (OptionKey × OptionValue F) → Goroutine C V E P → Goroutine C V E P
    unfolding set_options
    add_options opts g = record g { active_option = (set_options opts g.active_option).0 }

    -- `NewGoroutine`; `inl` is its error.
    unfoldable pub new_goroutine :
        List (OptionKey × OptionValue F) → OptionError ⊎ Goroutine C V E P
    unfolding set_options
    new_goroutine opts =
        let (o, err) = set_options opts (blank {C = C} {V = V} {E = E} {P = P}).active_option in
        elim err [ none ↦ inr (record blank { active_option = o }) | some e ↦ inl e ]

  set_option-IsValid :
      (opt : OptionKey × OptionValue F) (o : ActiveOption)
      → IsValid o
      → IsValid (set_option opt o).0
  unfolding set_option
  set_option-IsValid (worker, v) o h = ground arith
  set_option-IsValid (_, v) o h = ground arith

  -- Whatever options are given, in any number and of any type, and whether or not one is refused,
  -- the options in force stay valid.
  pub set_options-IsValid :
      (opts : List (OptionKey × OptionValue F)) (o : ActiveOption)
      → IsValid o
      → IsValid (set_options opts o).0
  unfolding set_options
  set_options-IsValid [] o h = h
  set_options-IsValid (opt ∷ opts) o h =
      ground (arith, set_option-IsValid opt o h, set_options-IsValid opts (set_option opt o).0)

  -- Options up to the first one that is refused take effect, and none after it.
  pub set_options-append :
      (opts more : List (OptionKey × OptionValue F)) (o : ActiveOption)
      → set_options (opts ++ more) o ≡ (elim ((set_options opts o).1) [
        | none ↦ set_options more (set_options opts o).0
        | some e ↦ set_options opts o
      ])
  unfolding set_options
  set_options-append [] more o = refl
  set_options-append (opt ∷ opts) more o =
      ground (arith, set_options-append opts more (set_option opt o).0)
