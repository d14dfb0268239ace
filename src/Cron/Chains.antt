-- ===== src/Cron/Chains.antt =====
-- cronw: which handlers the jobs of a scheduler run.
use go_utility.Base.{
  ℕ, zero, suc, ◌+◌, String, ◌≡◌, refl, sym, ap, ◌∙◌, Option, none, some, List, [], ◌∷◌, ◌++◌,
  append-nil, append_assoc, length, get_elem?-append_end, length-append, ltb, arith, All,
  All-append, false,
}
use go_utility.Base.Text.{take, drop}
use go_utility.Cron.{Slice, cells, elements, append, Job, Scheduler, Call, register}

-- The slice is within its array, as every slice of Go is.
unfoldable pub IsSlice {ℓ} : {H : Type ℓ} → List (List H) → Slice → Type 0
unfolding elements
IsSlice store s = length (elements store s) ≡ s.len

-- A slice without spare capacity, such as the one of arguments that are written out, or nil.
abbrev pub IsFull : Slice → Type 0
IsFull s = s.len ≡ s.capacity

take_all {ℓ} : {A : Type ℓ} (xs : List A) (n : ℕ) → length xs ≡ n → take n xs ≡ xs
take_all [] zero h = refl
take_all [] (suc n) h = ground arith
take_all (x ∷ xs) zero h = ground arith
take_all (x ∷ xs) (suc n) h = ap (λ l. x ∷ l) (take_all xs n (omega arith))

nothing_taken {ℓ} : (A : Type ℓ) (n m : ℕ) → length (take n (drop {A = A} m [])) ≡ n → n ≡ 0
nothing_taken A zero m h = refl
nothing_taken A (suc n) zero h = ground arith
nothing_taken A (suc n) (suc m) h = ground arith

grown_at {ℓ} :
    {H : Type ℓ} (store more : List (List H)) (a o n : ℕ)
    → length (take n (drop o (cells store a))) ≡ n
    → take n (drop o (cells (store ++ more) a)) ≡ take n (drop o (cells store a))
grown_at [] more a o n h = rw (nothing_taken _ n o h) refl
grown_at (c ∷ store) more zero o n h = refl
grown_at (c ∷ store) more (suc a) o n h = grown_at store more a o n h

-- New arrays leave the elements of a slice as they are.
elements_grown {ℓ} :
    {H : Type ℓ} (store more : List (List H)) (s : Slice)
    → IsSlice store s
    → elements (store ++ more) s ≡ elements store s
unfolding elements IsSlice
elements_grown store more s h = grown_at store more s.array s.offset s.len h

ltb_same : (m n : ℕ) → m ≡ n → ltb m n ≡ false
ltb_same m n h = ground arith

-- What `append` makes of a slice without spare capacity.
abbrev grown {ℓ} : {H : Type ℓ} → ℕ → Slice → List (List H) → Slice
grown spare s store = record {
  array = length store;
  offset = 0;
  len = suc s.len;
  capacity = suc (s.len + spare);
}

append_full {ℓ} :
    {H : Type ℓ} (spare : ℕ) (s : Slice) (h : H) (store : List (List H))
    → IsFull s
    → append spare s h store ≡ (grown spare s store, store ++ (elements store s ++ h ∷ []) ∷ [])
unfolding append
append_full spare s h store full = rw (append, ltb_same s.len s.capacity full) refl

elements-grown {ℓ} :
    {H : Type ℓ} (spare : ℕ) (s : Slice) (h : H) (store : List (List H))
    → IsSlice store s
    → elements (store ++ (elements store s ++ h ∷ []) ∷ []) (grown spare s store)
      ≡ elements store s ++ h ∷ []
unfolding IsSlice elements
elements-grown spare s h store whole =
    let added = elements store s ++ h ∷ [] in
    ap (λ o. take (suc s.len) (elim o [ none ↦ [] | some c ↦ c ]))
      (get_elem?-append_end store added)
    ∙ (take_all added (suc s.len) (omega (arith, length-append (elements store s) (h ∷ []), whole)))

new_slice {ℓ} :
    {H : Type ℓ} (spare : ℕ) (s : Slice) (h : H) (store : List (List H))
    → IsSlice store s
    → IsSlice (store ++ (elements store s ++ h ∷ []) ∷ []) (grown spare s store)
unfolding IsSlice
new_slice spare s h store whole =
    ap length (elements-grown spare s h store whole)
    ∙ omega (arith, length-append (elements store s) (h ∷ []), whole)

module _ {H : Type 0} where
  -- What the jobs of a scheduler run, each under its pattern.
  abbrev pub chains : List (List H) → List Job → List (String × List H)
  chains store [] = []
  chains store (j ∷ jobs) = (j.pattern, elements store j.all_handlers) ∷ chains store jobs

  abbrev AreSlices : List (List H) → List Job → Type 0
  AreSlices store jobs = All (λ j. IsSlice store j.all_handlers) jobs

  abbrev pub Fits : List (List H) → Call H → Type 0
  Fits store c = IsSlice store c.middlewares × IsFull c.middlewares

  grown-IsSlice :
      (store more : List (List H)) (s : Slice) → IsSlice store s → IsSlice (store ++ more) s
  unfolding IsSlice
  grown-IsSlice store more s h = ap length (elements_grown store more s h) ∙ h

  chains_grown :
      (store more : List (List H)) (jobs : List Job)
      → AreSlices store jobs
      → (chains (store ++ more) jobs ≡ chains store jobs) × AreSlices (store ++ more) jobs
  chains_grown store more [] h = (refl, h)
  chains_grown store more (j ∷ jobs) (here, h) =
      let (same, all) = chains_grown store more jobs h in
      (
        rw (elements_grown store more j.all_handlers here, same) refl,
        (grown-IsSlice store more j.all_handlers here, all),
      )

  chains-append :
      (store : List (List H)) (jobs more : List Job)
      → chains store (jobs ++ more) ≡ chains store jobs ++ chains store more
  chains-append store [] more = refl
  chains-append store (j ∷ jobs) more =
      ap (λ l. (j.pattern, elements store j.all_handlers) ∷ l) (chains-append store jobs more)

-- What the engine accepts, before the rest.
abbrev pub accepted {ℓ} : {E : Type 0} {A : Type ℓ} → Option E → A → List A → List A
accepted none a rest = a ∷ rest
accepted (some e) a rest = rest

module _ {H E : Type 0} where
  -- The chains that calls ask for, when the engine accepts their patterns.
  abbrev pub asked :
      (String → ℕ × Option E) → List (List H) → List (ℕ × Call H) → List (String × List H)
  asked add_func store [] = []
  asked add_func store ((spare, c) ∷ calls) =
      accepted (add_func c.pattern).1 (c.pattern, elements store c.middlewares ++ c.handler ∷ [])
        (asked add_func store calls)

  asked_grown :
      (add_func : String → ℕ × Option E) (store more : List (List H)) (calls : List (ℕ × Call H))
      → All (λ c. Fits store c.1) calls
      → (asked add_func (store ++ more) calls ≡ asked add_func store calls)
        × All (λ c. Fits (store ++ more) c.1) calls
  asked_grown add_func store more [] h = (refl, h)
  asked_grown add_func store more ((spare, c) ∷ calls) ((whole, full), h) =
      let (same, all) = asked_grown add_func store more calls h in
      (
        rw (elements_grown store more c.middlewares whole, same) refl,
        ((grown-IsSlice store more c.middlewares whole, full), all),
      )

  unfoldable pub register_all :
      (String → ℕ × Option E) → List (ℕ × Call H) → Scheduler H → Scheduler H
  unfolding register
  register_all add_func [] s = s
  register_all add_func ((spare, c) ∷ calls) s =
      register_all add_func calls (register add_func spare c s).1

  -- The scheduler after a call whose slice has no spare capacity, by the answer of the engine.
  abbrev after : ℕ → Call H → Option E → Scheduler H → Scheduler H
  after spare c o s = record {
    store = s.store ++ (elements s.store c.middlewares ++ c.handler ∷ []) ∷ [];
    jobs =
        s.jobs
        ++ accepted o
            (record { pattern = c.pattern; all_handlers = grown spare c.middlewares s.store }) [];
  }

  register_full :
      (add_func : String → ℕ × Option E) (spare : ℕ) (c : Call H) (s : Scheduler H) (o : Option E)
      → IsFull c.middlewares
      → (add_func c.pattern).1 ≡ o
      → (register add_func spare c s).1 ≡ after spare c o s
  unfolding register
  register_full add_func spare c s none full h =
      rw (register, h, append_full spare c.middlewares c.handler s.store full) refl
  register_full add_func spare c s (some e) full h =
      rw (register, h, append_full spare c.middlewares c.handler s.store full)
        (ap
          (λ l. record {
            store = s.store ++ (elements s.store c.middlewares ++ c.handler ∷ []) ∷ [];
            jobs = l;
          })
          (sym (append-nil s.jobs)))

  -- The chains after such a call.
  chains-after :
      (spare : ℕ) (c : Call H) (o : Option E) (s : Scheduler H) (rest : List (String × List H))
      → AreSlices s.store s.jobs
      → IsSlice s.store c.middlewares
      → let s' = after spare c o s in
        (chains s'.store s'.jobs ++ rest
          ≡ chains s.store s.jobs
            ++ accepted o (c.pattern, elements s.store c.middlewares ++ c.handler ∷ []) rest)
        × AreSlices s'.store s'.jobs
  chains-after spare c none s rest js whole =
      let more = (elements s.store c.middlewares ++ c.handler ∷ []) ∷ [] in
      let (same, all) = chains_grown s.store more s.jobs js in
      let new_elements = elements-grown spare c.middlewares c.handler s.store whole in
      (
        rw
            (
              chains-append (s.store ++ more) s.jobs (
                  record { pattern = c.pattern; all_handlers = grown spare c.middlewares s.store }
                  ∷ []),
              same,
              new_elements,
            )
            (append_assoc (chains s.store s.jobs)
              ((c.pattern, elements s.store c.middlewares ++ c.handler ∷ []) ∷ []) rest),
        All-append (λ j. IsSlice (s.store ++ more) j.all_handlers) s.jobs
            (record { pattern = c.pattern; all_handlers = grown spare c.middlewares s.store } ∷ [])
            all (new_slice spare c.middlewares c.handler s.store whole, tt),
      )
  chains-after spare c (some e) s rest js whole =
      let more = (elements s.store c.middlewares ++ c.handler ∷ []) ∷ [] in
      let (same, all) = chains_grown s.store more s.jobs js in
      (rw (append-nil s.jobs, same) refl, rw (append-nil s.jobs) all)

  chains_from :
      (add_func : String → ℕ × Option E) (calls : List (ℕ × Call H)) (s : Scheduler H)
      → AreSlices s.store s.jobs
      → All (λ c. Fits s.store c.1) calls
      → let s' = register_all add_func calls s in
        chains s'.store s'.jobs ≡ chains s.store s.jobs ++ asked add_func s.store calls
  unfolding register_all
  chains_from add_func [] s js h = sym (append-nil (chains s.store s.jobs))
  chains_from add_func ((spare, c) ∷ calls) s js ((whole, full), h) =
      let more = (elements s.store c.middlewares ++ c.handler ∷ []) ∷ [] in
      let o = (add_func c.pattern).1 in
      let (asked_same, fits) = asked_grown add_func s.store more calls h in
      let (step, slices) = chains-after spare c o s (asked add_func s.store calls) js whole in
      ap (λ t. chains (register_all add_func calls t).store (register_all add_func calls t).jobs)
        (register_full add_func spare c s o full refl)
      ∙ chains_from add_func calls (after spare c o s) slices fits
      ∙ ap (λ l. chains (after spare c o s).store (after spare c o s).jobs ++ l) asked_same
      ∙ step

  -- Jobs are registered on a new scheduler, and each call gives its middlewares in a slice without spare
  -- capacity. Then, whatever the calls share, the jobs are those whose pattern the engine accepts, in
  -- the order of the calls, and each runs the middlewares of its own call and then its own handler.
  pub register_all-asked :
      (add_func : String → ℕ × Option E) (store : List (List H)) (calls : List (ℕ × Call H))
      → All (λ c. Fits store c.1) calls
      → let s = register_all add_func calls (record { store = store; jobs = [] }) in
        chains s.store s.jobs ≡ asked add_func store calls
  register_all-asked add_func store calls h =
      chains_from add_func calls (record { store = store; jobs = [] }) tt h
