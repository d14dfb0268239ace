-- ===== src/Goroutine/Pool.antt =====
-- What every interleaving of a run keeps: the bound on the workers, and one response for each job.
use go_utility.Base.{
  ℕ, ◌+◌, ◌*◌, ◌≤◌, ◌<◌, Bool, true, ◌≡◌, refl, ◌⊎◌, inl, inr, Option, none, some, List, [], ◌∷◌,
  ◌++◌, arith, length, if◌then◌else◌, ◌&&◌, ◌||◌, not, All, All-append, length-append, bytes_eq,
  ◌==◌, Bool-cases, List-cases, Option-cases, subst, sym, ◌∙◌,
}
use go_utility.Goroutine.{Key, Response, ActiveOption, Job}
use go_utility.Goroutine.Record.{is_nil_error}
use go_utility.Goroutine.Run.{
  Pool, skipped, start_pool, Step, skip, admit, start, finish, cancel, Reach, here, next, IsDone,
}

-- How often a key occurs.
abbrev pub count : Key → List Key → ℕ
count k [] = 0
count k (j ∷ ks) = (if j == k then 1 else 0) + count k ks

count-append : (k : Key) (xs ys : List Key) → count k (xs ++ ys) ≡ count k xs + count k ys
count-append k [] ys = omega arith
count-append k (x ∷ xs) ys = omega (arith, count-append k xs ys)

module _ {C V E P : Type 0} where
  abbrev pub keys : List (Job C V E P) → List Key
  keys [] = []
  keys (j ∷ js) = j.process_key ∷ keys js

  abbrev waiting_keys : Option (Job C V E P) → List Key
  waiting_keys none = []
  waiting_keys (some j) = j.process_key ∷ []

  keys-append : (xs ys : List (Job C V E P)) → keys (xs ++ ys) ≡ keys xs ++ keys ys
  keys-append [] ys = refl
  keys-append (x ∷ xs) ys = rw (keys-append xs ys)

abbrev pub log_keys : {V E P : Type 0} → List (Key × Response V E P) → List Key
log_keys [] = []
log_keys ((k, r) ∷ log) = k ∷ log_keys log

log_keys-append :
    {V E P : Type 0} (xs ys : List (Key × Response V E P))
    → log_keys (xs ++ ys) ≡ log_keys xs ++ log_keys ys
log_keys-append [] ys = refl
log_keys-append ((k, r) ∷ xs) ys = rw (log_keys-append xs ys)

module _ {C V E P : Type 0} (opt : ActiveOption) (workers : ℕ)
    (execute : Job C V E P → Option (Response V E P)) where
  -- A key's occurrences among the responses and the jobs that are still to be answered.
  abbrev tally : Key → Pool C V E P → ℕ
  tally k s =
      count k (log_keys s.log)
      + count k (keys s.running)
      + count k (waiting_keys s.waiting)
      + count k (keys s.todo)

  -- What a recorded response is: what a job's execution gave, or, if errors block, a skip.
  abbrev pub IsAnswer : Key × Response V E P → Type 0
  IsAnswer e =
      ((j : Job C V E P) × (j.process_key ≡ e.0) × (execute j ≡ some e.1))
      ⊎ ((opt.block_error ≡ true) × (e.1 ≡ skipped))

  Step-bounded :
      {s t : Pool C V E P}
      → Step opt workers execute s t
      → length s.running ≤ workers
      → length t.running ≤ workers
  Step-bounded (skip j js w e b q) h = ground arith
  Step-bounded (admit j js w e b q) h = ground arith
  Step-bounded (start j w lt q) h = ground arith
  Step-bounded (finish j before after r e x q) h =
      ground (arith, length-append before after, length-append before (j ∷ after))
  Step-bounded (cancel q) h = ground arith

  Step-tally : (k : Key) {s t : Pool C V E P} → Step opt workers execute s t → tally k t ≡ tally k s
  Step-tally k {s} {t} (skip j js w e b q) = ground (
    arith,
    log_keys-append s.log ((j.process_key, skipped) ∷ []),
    count-append k (log_keys s.log) (j.process_key ∷ []),
  )
  Step-tally k {s} {t} (admit j js w e b q) = ground arith
  Step-tally k {s} {t} (start j w lt q) = ground arith
  Step-tally k {s} {t} (finish j before after r e x q) = ground (
    arith,
    log_keys-append s.log ((j.process_key, r) ∷ []),
    count-append k (log_keys s.log) (j.process_key ∷ []),
    keys-append before after,
    keys-append before (j ∷ after),
    count-append k (keys before) (keys after),
    count-append k (keys before) (j.process_key ∷ keys after),
  )
  Step-tally k {s} {t} (cancel q) = ground arith

  Step-answers :
      {s t : Pool C V E P} → Step opt workers execute s t → All IsAnswer s.log → All IsAnswer t.log
  Step-answers (skip j js w e b q) h =
      subst (λ u. All IsAnswer u.log) (sym q)
        (All-append IsAnswer _ ((j.process_key, skipped) ∷ []) h (inr (ground arith, refl), tt))
  Step-answers (admit j js w e b q) h = ground arith
  Step-answers (start j w lt q) h = ground arith
  Step-answers (finish j before after r e x q) h =
      subst (λ u. All IsAnswer u.log) (sym q)
        (All-append IsAnswer _ ((j.process_key, r) ∷ []) h (inl (j, refl, x), tt))
  Step-answers (cancel q) h = ground arith

  Reach-keeps :
      (k : Key) {s t : Pool C V E P}
      → Reach opt workers execute s t
      → length s.running ≤ workers
      → All IsAnswer s.log
      → (length t.running ≤ workers) × All IsAnswer t.log × (tally k t ≡ tally k s)
  Reach-keeps k here h a = (h, a, refl)
  Reach-keeps k (next r st) h a =
      let (h', a', e) = Reach-keeps k r h a in
      (Step-bounded st h', Step-answers st a', Step-tally k st ∙ e)

  -- Whatever the interleaving, never more jobs run at once than there are workers, and each
  -- response is what a job's execution gave or, if errors block, marks a job as not executed.
  pub Reach-bounded :
      (canceled : Bool) (jobs : List (Job C V E P)) {t : Pool C V E P}
      → Reach opt workers execute (start_pool canceled jobs) t
      → (length t.running ≤ workers) × All IsAnswer t.log
  unfolding start_pool
  Reach-bounded canceled jobs r = let (h, a, _) = Reach-keeps [] r (omega arith) tt in (h, a)

  -- When a run is done, every job has been answered exactly as often as its key occurs among the
  -- jobs, and no other key has been answered.
  pub IsDone-tally :
      (canceled : Bool) (jobs : List (Job C V E P)) {t : Pool C V E P} (k : Key)
      → Reach opt workers execute (start_pool canceled jobs) t
      → IsDone t
      → count k (log_keys t.log) ≡ count k (keys jobs)
  unfolding start_pool
  IsDone-tally canceled jobs k r d =
      let (_, _, e) = Reach-keeps k r (omega arith) tt in ground (arith, e, d)

  -- What is left to do.
  abbrev pub work : Pool C V E P → ℕ
  work s = 3 * length s.todo + (elim (s.waiting) [ none ↦ 0 | some j ↦ 2 ]) + length s.running

  finish_first :
      (s : Pool C V E P) (j : Job C V E P) (js : List (Job C V E P)) (r : Response V E P)
      → s.running ≡ j ∷ js
      → execute j ≡ some r
      → (t : Pool C V E P) × Step opt workers execute s t × (work t < work s)
  finish_first s j js r e x = (
    record s {
      running = js;
      canceled = s.canceled || (opt.block_error && not (is_nil_error r));
      log = s.log ++ (j.process_key, r) ∷ [];
    },
    finish j [] js r e x refl,
    ground arith,
  )

  -- A run that is not done can go on without its caller, with less left to do, if there is a worker
  -- and every execution gives a response; and no step ever leaves more to do.
  pub Step_progress :
      (s : Pool C V E P)
      → 0 < workers
      → ((j : Job C V E P) → (r : Response V E P) × (execute j ≡ some r))
      → (IsDone s ⊎ ((t : Pool C V E P) × Step opt workers execute s t × (work t < work s)))
        × ((t : Pool C V E P) → Step opt workers execute s t → work t ≤ work s)
  Step_progress s w total = (progress, λ t st. not_more st)
    where
      not_more : {t : Pool C V E P} → Step opt workers execute s t → work t ≤ work s
      not_more (skip j js f e b q) = ground arith
      not_more (admit j js f e b q) = ground arith
      not_more (start j f lt q) = ground arith
      not_more (finish j before after r e x q) =
          ground (arith, length-append before after, length-append before (j ∷ after))
      not_more (cancel q) = ground arith

      progress : IsDone s ⊎ ((t : Pool C V E P) × Step opt workers execute s t × (work t < work s))
      progress = elim (List-cases s.running) [
        | inr (j, js, e) ↦ let (r, x) = total j in inr (finish_first s j js r e x)
        | inl idle ↦ elim (Option-cases s.waiting) [
          | inr (j, f) ↦ inr (_, start j f (ground arith) refl, ground arith)
          | inl f ↦ elim (List-cases s.todo) [
            | inl e ↦ inl (record { todo = e; waiting = f; running = idle })
            | inr (j, js, e) ↦ elim (Bool-cases (opt.block_error && s.canceled)) [
              | inl b ↦ inr (_, skip j js f e b refl, ground arith)
              | inr b ↦ inr (_, admit j js f e b refl, ground arith)
            ]
          ]
        ]
      ]
