-- ===== src/Goroutine/Ends.antt =====
-- Every run of the worker loop can be brought to its end, from wherever it is.
use go_utility.Base.{ℕ, zero, suc, ◌<◌, ◌≤◌, ◌≡◌, Bool, inl, inr, Option, some, List, arith}
use go_utility.Goroutine.{Key, Response, ActiveOption, Job}
use go_utility.Goroutine.Run.{Pool, start_pool, Reach, here, next, IsDone}
use go_utility.Goroutine.Pool.{work, Step_progress, IsDone-tally, count, log_keys, keys}

module _ {C V E P : Type 0} (opt : ActiveOption) (workers : ℕ)
    (execute : Job C V E P → Option (Response V E P)) where
  Reach-append :
      {s t u : Pool C V E P}
      → Reach opt workers execute s t
      → Reach opt workers execute t u
      → Reach opt workers execute s u
  Reach-append r here = r
  Reach-append r (next q st) = next (Reach-append r q) st

  ends_within :
      (n : ℕ) (s : Pool C V E P)
      → 0 < workers
      → ((j : Job C V E P) → (r : Response V E P) × (execute j ≡ some r))
      → work opt workers execute s ≤ n
      → (t : Pool C V E P) × Reach opt workers execute s t × IsDone t
  ends_within zero s w total le = elim ((Step_progress opt workers execute s w total).0) [
    | inl done ↦ (s, here, done)
    | inr (t, st, lt) ↦ absurd (omega (arith, lt, le))
  ]
  ends_within (suc n) s w total le = elim ((Step_progress opt workers execute s w total).0) [
    | inl done ↦ (s, here, done)
    | inr (t, st, lt) ↦
        let (u, r, done) = ends_within n t w total (omega (arith, lt, le)) in
        (u, Reach-append (next here st) r, done)
  ]

  -- With a worker, and executions that all give a response, a run that has come to any state can go
  -- on from there to its end, and at that end has recorded as many responses under each key as there
  -- were jobs with it.
  pub run_ends :
      (canceled : Bool) (jobs : List (Job C V E P)) {s : Pool C V E P} (k : Key)
      → 0 < workers
      → ((j : Job C V E P) → (r : Response V E P) × (execute j ≡ some r))
      → Reach opt workers execute (start_pool canceled jobs) s
      → (t : Pool C V E P) × Reach opt workers execute s t
        × IsDone t
        × (count k (log_keys t.log) ≡ count k (keys jobs))
  run_ends canceled jobs {s} k w total reached =
      let (t, r, done) = ends_within (work opt workers execute s) s w total (omega arith) in
      (t, r, done, IsDone-tally opt workers execute canceled jobs k (Reach-append reached r) done)
