-- ===== src/Goroutine/Merge.antt =====
-- From the log of a run to what the caller is given: `recordResponse`, then the collectors.
use go_utility.Base.{
  ℕ, suc, ◌<◌, ◌≡◌, refl, none, some, List, [], ◌∷◌, arith, length, get_elem?, lookup, bytes_eq,
  IsMap, ap, ◌∙◌, map,
}
use go_utility.Base.Text.{index}
use go_utility.Goroutine.{Key, Response, BatchCollector, Goroutine}
use go_utility.Goroutine.Keys.{sep, batch_key, parse-batch_key}
use go_utility.Goroutine.Record.{record_response, record_all}
use go_utility.Goroutine.Slots.{IsOwn, IsWithin, slots, slots-record_all}
use go_utility.Goroutine.Collect.{merged, collect_each, collect_each-lookup}
use go_utility.Goroutine.Run.{reset, finish_run}

-- The step's own batch keys in the log hold these responses, in the order of the batches, and no
-- other key of the log is read as a batch of the step.
pub record Answers {V E P : Type 0} (k : Key) (rs : List (Response V E P))
    (log : List (Key × Response V E P)) : Type 0 where
  pub clean : index sep k ≡ none
  pub few : length rs < 9223372036854775807
  pub found : (i : ℕ) → i < length rs → lookup (batch_key k (suc i)) log ≡ get_elem? rs i
  pub once : IsMap log
  pub own : IsOwn k (batch_key k) log
  pub within : IsWithin k (length rs) log

module _ {C V E P : Type 0} where
  record_all-batch_collectors :
      (log : List (Key × Response V E P)) (g : Goroutine C V E P)
      → (record_all log g).batch_collectors ≡ g.batch_collectors
  unfolding record_all record_response
  record_all-batch_collectors [] g = refl
  record_all-batch_collectors ((k, r) ∷ log) g =
      record_all-batch_collectors log (record_response k r g)

  -- When the workers have finished with a log of responses, in whatever order, the collector of a step is
  -- given the responses of the step's batches in the order of the batches, and its result is returned
  -- under the step's key; the results of an earlier run play no part. The step's key has no "#batch_" in
  -- it and has one collector. The log has each key once, a response for each of the step's batch keys from
  -- 1 to their number, and no other key that is read as a batch of the step.
  pub finish_run-collected :
      (ctx : C) (k : Key) (c : BatchCollector C V E P) (rs : List (Response V E P))
      (log : List (Key × Response V E P)) (g : Goroutine C V E P)
      → Answers k rs log
      → IsMap g.batch_collectors
      → lookup k g.batch_collectors ≡ some c
      → lookup k (finish_run ctx log g) ≡ some (merged ctx k c rs)
  unfolding finish_run
  finish_run-collected ctx k c rs log g a m found =
      let done = record_all log (reset g) in
      let same : done.batch_collectors ≡ g.batch_collectors =
        record_all-batch_collectors log (reset g) in
      let results : slots k done ≡ rs =
        slots-record_all k (batch_key k) rs log (reset g)
          (λ i lt. parse-batch_key k (suc i) a.clean (omega arith) (omega arith)) a.found a.once
          a.own a.within refl in
      ap
        (λ cs. lookup k (
          collect_each ctx done.batch_results (map (λ e. e.0) done.output_resp) cs
            done.output_resp))
        same
      ∙ collect_each-lookup ctx done.batch_results (map (λ e. e.0) done.output_resp) k
          g.batch_collectors done.output_resp a.clean m
      ∙ ground (arith, found, results)
