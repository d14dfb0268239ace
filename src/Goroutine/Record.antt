-- ===== src/Goroutine/Record.antt =====
-- `recordResponse`: what the responses leave behind, in whatever order they arrive.
use go_utility.Base.{
  ℕ, ◌-◌, Bool, true, false, none, some, List, [], ◌∷◌, ◌++◌, length, set, replicate, insert,
  if◌then◌else◌, bytes_eq, ltb, ◌&&◌, not,
}
use go_utility.Goroutine.{Key, Response, Goroutine, slice_at}
use go_utility.Goroutine.Keys.{parse_batch_process_key}

module _ {V E P : Type 0} where
  -- The zero value, with which a slice is grown.
  abbrev pub no_response : Response V E P
  no_response = record { output = none; err = none; is_execute = false }

  -- `make` and `copy`: the slice, grown to `idx` if it is shorter.
  unfoldable pub grow : ℕ → List (Response V E P) → List (Response V E P)
  grow idx results =
      if ltb (length results) idx
      then results ++ replicate (idx - length results) no_response
      else results

  -- `batchResults[stepKey][idx-1] = resp` on the grown slice.
  abbrev pub put_slot : ℕ → Response V E P → List (Response V E P) → List (Response V E P)
  put_slot idx resp results = set (grow idx results) (idx - 1) resp

  unfoldable pub put_batch :
      Key → Response V E P → List (Key × List (Response V E P)) → List (Key × List (Response V E P))
  unfolding grow
  put_batch process_key resp m = elim (parse_batch_process_key process_key) [
    | none ↦ m
    | some (step_key, idx) ↦ insert step_key (put_slot idx resp (slice_at step_key m)) m
  ]

  abbrev pub is_nil_error : Response V E P → Bool
  is_nil_error resp = elim (resp.err) [ none ↦ true | some e ↦ false ]

module _ {C V E P : Type 0} where
  unfoldable pub record_response : Key → Response V E P → Goroutine C V E P → Goroutine C V E P
  unfolding put_batch
  record_response process_key resp g = record g {
    output_resp = insert process_key resp g.output_resp;
    success_process =
        if resp.is_execute && is_nil_error resp
        then g.success_process ++ process_key ∷ []
        else g.success_process;
    failed_process =
        if resp.is_execute && not (is_nil_error resp)
        then g.failed_process ++ process_key ∷ []
        else g.failed_process;
    batch_results = put_batch process_key resp g.batch_results;
  }

  -- The responses of a run in the order in which the workers record them.
  unfoldable pub record_all : List (Key × Response V E P) → Goroutine C V E P → Goroutine C V E P
  record_all [] g = g
  record_all ((k, resp) ∷ log) g = record_all log (record_response k resp g)
