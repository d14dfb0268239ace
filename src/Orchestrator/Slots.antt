-- ===== src/Orchestrator/Slots.antt =====
-- Where the workers' results end up, in whatever order the workers finish.
use go_utility.Base.{
  ℕ, ◌<◌, String, ◌≡◌, ◌≢◌, refl, ◌⊎◌, inl, inr, Option, none, some, List, [], ◌∷◌, ◌++◌, arith,
  length, get_elem?, set, lookup, insert, string_eq, All, lookup-insert, beq_refl, length-set,
  get_elem?-set_self, get_elem?-set_ne, ap, ◌∙◌, Bool-cases, eq_of_beq,
}
use go_utility.Orchestrator.{
  returned, Entry, value, slice, step_failed, Orchestrator, Job, store_result, run_job, run_jobs,
}

store_batch :
    {V : Type 0} (k : String) (i : ℕ) (v : V) (vs : List (Option V)) (m : List (String × Entry V))
    → lookup k m ≡ some (slice vs)
    → i < length vs
    → store_result k (some i) v m ≡ some (insert k (slice (set vs i (some v))) m)
unfolding store_result
store_batch k i v vs m h lt = ground arith

module _ {V E : Type 0} where
  -- Each key that is to hold a batch of some length holds a slice of that length.
  abbrev pub Fits : (String → Option ℕ) → Orchestrator V E → Type 0
  Fits shape o =
      (k : String) (n : ℕ)
      → shape k ≡ some n
      → (vs : List (Option V)) × (lookup k o.results ≡ some (slice vs)) × (length vs ≡ n)

  -- The handler does not panic on the job's input.
  abbrev pub Returns : Job V E → Type 0
  Returns j = (v : V) × (e : Option E) × (j.handler j.input ≡ returned v e)

  -- A batch job has its slot in the batch of its key, and a single job's key holds no batch.
  abbrev pub HasPlace : (String → Option ℕ) → Job V E → Type 0
  HasPlace shape j =
      ((i n : ℕ) × (j.batch_index ≡ some i) × (shape j.key ≡ some n) × (i < n))
      ⊎ ((j.batch_index ≡ none) × (shape j.key ≡ none))

  abbrev pub IsSafe : (String → Option ℕ) → Job V E → Type 0
  IsSafe shape j = Returns j × HasPlace shape j

  -- The slot of a batch, empty where nothing has been stored.
  abbrev pub slot : String → ℕ → Orchestrator V E → Option V
  slot k i o = elim (lookup k o.results) [
    | none ↦ none
    | some (value v) ↦ none
    | some (slice vs) ↦ elim (get_elem? vs i) [ none ↦ none | some r ↦ r ]
  ]

  abbrev pub IsOther : String → ℕ → Job V E → Type 0
  IsOther k i j = j.key ≡ k → j.batch_index ≢ some i

  run_job_fails :
      (j : Job V E) (o : Orchestrator V E) {v : V} {e : E}
      → j.handler j.input ≡ returned v (some e)
      → run_job j o ≡ some (record o { errors = o.errors ++ step_failed j.key e ∷ [] })
  unfolding run_job
  run_job_fails j o h = rw (run_job, h)

  run_job_stores :
      (j : Job V E) (o : Orchestrator V E) {v : V} (m : List (String × Entry V))
      → j.handler j.input ≡ returned v none
      → store_result j.key j.batch_index v o.results ≡ some m
      → run_job j o ≡ some (record o { results = m })
  unfolding run_job
  run_job_stores j o m h e = ground arith

  Fits-insert-slice :
      (shape : String → Option ℕ) (o : Orchestrator V E) (k : String) (n : ℕ) (vs : List (Option V))
      → Fits shape o
      → shape k ≡ some n
      → length vs ≡ n
      → Fits shape (record o { results = insert k (slice vs) o.results })
  Fits-insert-slice shape o k n vs fits s l j m e = elim (Bool-cases (string_eq.beq k j)) [
    | inl same ↦ (
      vs,
      ground (arith, lookup-insert k j (slice vs) o.results),
      ground (arith, eq_of_beq k j same),
    )
    | inr other ↦
        let (ws, found, long) = fits j m e in
        (ws, ground (arith, lookup-insert k j (slice vs) o.results), long)
  ]

  Fits-insert_value :
      (shape : String → Option ℕ) (o : Orchestrator V E) (k : String) (v : V)
      → Fits shape o
      → shape k ≡ none
      → Fits shape (record o { results = insert k (value v) o.results })
  Fits-insert_value shape o k v fits s j m e =
      let (ws, found, long) = fits j m e in
      (ws, ground (arith, lookup-insert k j (value v) o.results, eq_of_beq k j), long)

  -- What one worker does to a state whose batches have their slices.
  pub record Effect (shape : String → Option ℕ) (j : Job V E) (o o' : Orchestrator V E)
      : Type 0 where
    pub ran : run_job j o ≡ some o'
    pub fits : Fits shape o'
    pub kept : (k : String) (i n : ℕ) → shape k ≡ some n → IsOther k i j → slot k i o' ≡ slot k i o
    pub stored :
        (i : ℕ) (v : V)
        → j.batch_index ≡ some i
        → j.handler j.input ≡ returned v none
        → slot j.key i o' ≡ some v

  Effect-failed :
      (shape : String → Option ℕ) (j : Job V E) (o : Orchestrator V E) (w : V) (e : E)
      → Fits shape o
      → j.handler j.input ≡ returned w (some e)
      → Effect shape j o (record o { errors = o.errors ++ step_failed j.key e ∷ [] })
  Effect-failed shape j o w e fits h = record {
    ran = run_job_fails j o h;
    fits = fits;
    kept = λ k i n s other. refl;
    stored = λ i v b ok. absurd (ground arith);
  }

  Effect-single :
      (shape : String → Option ℕ) (j : Job V E) (o : Orchestrator V E) (v : V)
      → Fits shape o
      → j.handler j.input ≡ returned v none
      → j.batch_index ≡ none
      → shape j.key ≡ none
      → Effect shape j o (record o { results = insert j.key (value v) o.results })
  unfolding store_result
  Effect-single shape j o v fits h b s = record {
    ran = run_job_stores j o (insert j.key (value v) o.results) h (rw (b, store_result));
    fits = Fits-insert_value shape o j.key v fits s;
    kept = λ k i n t other.
        ground (arith, lookup-insert j.key k (value v) o.results, eq_of_beq j.key k);
    stored = λ i w c ok. absurd (ground arith);
  }

  Effect-batch :
      (shape : String → Option ℕ) (j : Job V E) (o : Orchestrator V E) (v : V) (i n : ℕ)
      (vs : List (Option V))
      → Fits shape o
      → j.handler j.input ≡ returned v none
      → j.batch_index ≡ some i
      → shape j.key ≡ some n
      → i < n
      → lookup j.key o.results ≡ some (slice vs)
      → length vs ≡ n
      → Effect shape j o (record o { results = insert j.key (slice (set vs i (some v))) o.results })
  Effect-batch shape j o v i n vs fits h b s lt found long = record {
    ran =
        run_job_stores j o (insert j.key (slice (set vs i (some v))) o.results) h
          (rw b (store_batch j.key i v vs o.results found (omega arith)));
    fits =
        Fits-insert-slice shape o j.key n (set vs i (some v)) fits s
          (length-set vs i (some v) ∙ long);
    kept = λ k i' n' t other. elim (Bool-cases (string_eq.beq j.key k)) [
      | inl same ↦
          let e = eq_of_beq j.key k same in
          ground (
            arith,
            lookup-insert j.key k (slice (set vs i (some v))) o.results,
            get_elem?-set_ne vs i i' (some v) (λ q. other e (b ∙ ap some q)),
          )
      | inr differ ↦ ground (arith, lookup-insert j.key k (slice (set vs i (some v))) o.results)
    ];
    stored = λ i' w c ok. ground (
      arith,
      lookup-insert j.key j.key (slice (set vs i (some v))) o.results,
      beq_refl j.key,
      get_elem?-set_self vs i (some v) (omega arith),
    );
  }

  -- A safe job does not panic, whatever its handler returns.
  run_job_returned :
      (shape : String → Option ℕ) (j : Job V E) (o : Orchestrator V E) (v : V) (e : Option E)
      → Fits shape o
      → j.handler j.input ≡ returned v e
      → HasPlace shape j
      → (o' : Orchestrator V E) × Effect shape j o o'
  run_job_returned shape j o v (some e) fits h place = (_, Effect-failed shape j o v e fits h)
  run_job_returned shape j o v none fits h (inr (b, s)) = (_, Effect-single shape j o v fits h b s)
  run_job_returned shape j o v none fits h (inl (i, n, b, s, lt)) =
      let (vs, found, long) = fits j.key n s in
      (_, Effect-batch shape j o v i n vs fits h b s lt found long)

  run_job_safe :
      (shape : String → Option ℕ) (j : Job V E) (o : Orchestrator V E)
      → Fits shape o
      → IsSafe shape j
      → (o' : Orchestrator V E) × Effect shape j o o'
  run_job_safe shape j o fits ((v, e, h), place) = run_job_returned shape j o v e fits h place

  run_jobs_kept :
      (shape : String → Option ℕ) (k : String) (i n : ℕ) (js : List (Job V E))
      (o : Orchestrator V E)
      → Fits shape o
      → shape k ≡ some n
      → All (IsSafe shape) js
      → All (IsOther k i) js
      → (o' : Orchestrator V E) × (run_jobs js o ≡ some o') × (slot k i o' ≡ slot k i o)
  unfolding run_jobs
  run_jobs_kept shape k i n [] o fits s safe other = (o, refl, refl)
  run_jobs_kept shape k i n (j ∷ js) o fits s safe other =
      let (o', eff) = run_job_safe shape j o fits safe.0 in
      let (o'', ran, same) = run_jobs_kept shape k i n js o' eff.fits s safe.1 other.1 in
      (o'', rw (eff.ran, run_jobs) ran, same ∙ eff.kept k i n s other.0)

  -- In whatever order the workers finish, none panics and a batch job whose handler succeeds has
  -- its result in the slot of its index: provided that no handler panics on its input, that each
  -- batch key holds its slice, that no single input shares a batch's key, and that no later job
  -- has the same slot.
  pub run_jobs-slot :
      (shape : String → Option ℕ) (before after : List (Job V E)) (j : Job V E) (i n : ℕ) (v : V)
      (o : Orchestrator V E)
      → Fits shape o
      → All (IsSafe shape) before
      → All (IsSafe shape) after
      → (j.batch_index ≡ some i) × (shape j.key ≡ some n) × (i < n)
      → j.handler j.input ≡ returned v none
      → All (IsOther j.key i) after
      → (o' : Orchestrator V E) × (run_jobs (before ++ j ∷ after) o ≡ some o')
        × (slot j.key i o' ≡ some v)
  unfolding run_jobs
  run_jobs-slot shape [] after j i n v o fits sb sa (b, s, lt) ok other =
      let (o', eff) = run_job_safe shape j o fits ((v, none, ok), inl (i, n, b, s, lt)) in
      let (o'', ran, same) = run_jobs_kept shape j.key i n after o' eff.fits s sa other in
      (o'', rw (eff.ran, run_jobs) ran, same ∙ eff.stored i v b ok)
  run_jobs-slot shape (x ∷ before) after j i n v o fits sb sa own ok other =
      let (o', eff) = run_job_safe shape x o fits sb.0 in
      let (o'', ran, done) =
        run_jobs-slot shape before after j i n v o' eff.fits sb.1 sa own ok other in
      (o'', rw (eff.ran, run_jobs) ran, done)

  -- Where one key has a single and a batch input, and the single one's handler is the first to
  -- succeed, the first batch job of the key to succeed panics: its slice has been overwritten.
  pub run_jobs_clash :
      (s j : Job V E) (i : ℕ) (v w : V) (js : List (Job V E)) (o : Orchestrator V E)
      → s.key ≡ j.key
      → s.batch_index ≡ none
      → j.batch_index ≡ some i
      → s.handler s.input ≡ returned v none
      → j.handler j.input ≡ returned w none
      → run_jobs (s ∷ j ∷ js) o ≡ none
  unfolding run_jobs store_result run_job
  run_jobs_clash s j i v w js o same b c h k =
      ground (arith, lookup-insert s.key j.key (value v) o.results, beq_refl j.key)
