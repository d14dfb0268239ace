-- ===== src/Goroutine/Slots.antt =====
-- The batch results: each response in the slot of its batch, in whatever order they arrive.
use go_utility.Base.{
  ℕ, zero, suc, ◌-◌, ◌≤◌, ◌<◌, ◌≡◌, ◌≢◌, refl, ◌⊎◌, inl, inr, none, some, List, [], ◌∷◌, arith,
  length, get_elem?, replicate, lookup, if◌then◌else◌, bytes_eq, ltb, lookup-insert, IsMap,
  length-append, length-set, get_elem?-set_self, get_elem?-set_ne, get_elem?-append_left,
  Bool-cases, Option-cases, eq_of_beq, beq_refl, ap, sym, ◌∙◌, All, ◌==◌,
}
use go_utility.Goroutine.{Key, Response, Goroutine, slice_at}
use go_utility.Goroutine.Keys.{parse_batch_process_key, parse_pos}
use go_utility.Goroutine.Record.{
  no_response, grow, put_slot, put_batch, record_response, record_all,
}

length-replicate {ℓ} : {A : Type ℓ} (n : ℕ) (a : A) → length (replicate n a) ≡ n
length-replicate zero a = refl
length-replicate (suc n) a = omega (arith, length-replicate n a)

module _ {V E P : Type 0} where
  length-grow :
      (idx : ℕ) (results : List (Response V E P))
      → length (grow idx results) ≡ (if ltb (length results) idx then idx else length results)
  unfolding grow
  length-grow idx results =
      let pad = replicate (idx - length results) (no_response {V = V} {E = E} {P = P}) in
      ground (
        arith,
        length-append results pad,
        length-replicate (idx - length results) (no_response {V = V} {E = E} {P = P}),
      )

  get_elem?-grow :
      (idx i : ℕ) (results : List (Response V E P))
      → i < length results
      → get_elem? (grow idx results) i ≡ get_elem? results i
  unfolding grow
  get_elem?-grow idx i results h =
      ground
        (arith, get_elem?-append_left results (replicate (idx - length results) no_response) i h)

  length-put_slot :
      (idx : ℕ) (resp : Response V E P) (results : List (Response V E P))
      → length (put_slot idx resp results)
        ≡ (if ltb (length results) idx then idx else length results)
  length-put_slot idx resp results =
      length-set (grow idx results) (idx - 1) resp ∙ length-grow idx results

  put_slot_self :
      (i : ℕ) (resp : Response V E P) (results : List (Response V E P))
      → get_elem? (put_slot (suc i) resp results) i ≡ some resp
  put_slot_self i resp results =
      let same : suc i - 1 ≡ i = omega arith in
      rw same (
        get_elem?-set_self (grow (suc i) results) i resp
          (ground (arith, length-grow (suc i) results)))

  put_slot_ne :
      (i idx : ℕ) (resp : Response V E P) (results : List (Response V E P))
      → idx ≢ suc i
      → 0 < idx
      → i < length results
      → get_elem? (put_slot idx resp results) i ≡ get_elem? results i
  put_slot_ne i idx resp results h p lt =
      get_elem?-set_ne (grow idx results) (idx - 1) i resp (λ e. h (omega arith))
      ∙ get_elem?-grow idx i results lt

  lt_of_get_elem? :
      (results : List (Response V E P)) (i : ℕ) {r : Response V E P}
      → get_elem? results i ≡ some r
      → i < length results
  lt_of_get_elem? [] i e = absurd (ground arith)
  lt_of_get_elem? (x ∷ xs) zero e = omega arith
  lt_of_get_elem? (x ∷ xs) (suc i) e = omega (arith, lt_of_get_elem? xs i e)

  get_elem?_of_lt :
      (results : List (Response V E P)) (i : ℕ)
      → i < length results
      → (r : Response V E P) × (get_elem? results i ≡ some r)
  get_elem?_of_lt [] i h = elim h [ ]
  get_elem?_of_lt (x ∷ xs) zero h = (x, refl)
  get_elem?_of_lt (x ∷ xs) (suc i) h = get_elem?_of_lt xs i (omega arith)

  -- Lists that agree at every position within the shorter bound are equal.
  list_ext :
      (xs ys : List (Response V E P))
      → length xs ≤ length ys
      → ((i : ℕ) → i < length ys → get_elem? xs i ≡ get_elem? ys i)
      → xs ≡ ys
  list_ext [] [] h e = refl
  list_ext [] (y ∷ ys) h e = absurd (ground (arith, e 0 (omega arith)))
  list_ext (x ∷ xs) [] h e = absurd (omega arith)
  list_ext (x ∷ xs) (y ∷ ys) h e =
      let tails = list_ext xs ys (omega arith) (λ i lt. e (suc i) (omega arith)) in
      ground (arith, e 0 (omega arith), tails)

-- No key of the log but the batch's own is read as a slot of the step.
abbrev pub IsOwn : {V E P : Type 0} → Key → (ℕ → Key) → List (Key × Response V E P) → Type 0
IsOwn k key log =
    All (λ e. (idx : ℕ) → parse_batch_process_key e.0 ≡ some (k, idx) → e.0 ≡ key idx) log

-- The step's slots in the log go up to `n`.
abbrev pub IsWithin : {V E P : Type 0} → Key → ℕ → List (Key × Response V E P) → Type 0
IsWithin k n log = All (λ e. (idx : ℕ) → parse_batch_process_key e.0 ≡ some (k, idx) → idx ≤ n) log

-- Whether a key is read as some slot of the step.
parse_cases :
    (k pk : Key)
    → ((idx : ℕ) × (parse_batch_process_key pk ≡ some (k, idx)))
      ⊎ ((idx : ℕ) → parse_batch_process_key pk ≢ some (k, idx))
parse_cases k pk = elim (Option-cases (parse_batch_process_key pk)) [
  | inl e ↦ inr (λ idx h. cc)
  | inr ((j, idx), e) ↦ elim (Bool-cases (j == k)) [
    | inl same ↦ let q = eq_of_beq j k same in inl (idx, ground arith)
    | inr differ ↦ inr (λ idx' h. ground (arith, beq_refl k))
  ]
]

module _ {C V E P : Type 0} where
  abbrev pub slots : Key → Goroutine C V E P → List (Response V E P)
  slots k g = slice_at k g.batch_results

  slots-record_other :
      (k pk : Key) (resp : Response V E P) (g : Goroutine C V E P)
      → ((idx : ℕ) → parse_batch_process_key pk ≢ some (k, idx))
      → slots k (record_response pk resp g) ≡ slots k g
  unfolding record_response put_batch
  slots-record_other k pk resp g h = elim (Option-cases (parse_batch_process_key pk)) [
    | inl e ↦ ground arith
    | inr ((j, idx), e) ↦ ground (
      arith,
      lookup-insert j k (put_slot idx resp (slots j g)) g.batch_results,
      bytes_eq.beq_iff j k,
      h idx,
    )
  ]

  slots-record_own :
      (k pk : Key) (idx : ℕ) (resp : Response V E P) (g : Goroutine C V E P)
      → parse_batch_process_key pk ≡ some (k, idx)
      → slots k (record_response pk resp g) ≡ put_slot idx resp (slots k g)
  unfolding record_response put_batch
  slots-record_own k pk idx resp g e =
      ground (arith, lookup-insert k k (put_slot idx resp (slots k g)) g.batch_results, beq_refl k)

  slot-record_other :
      (k pk : Key) (i : ℕ) (key : ℕ → Key) (r resp : Response V E P) (g : Goroutine C V E P)
      → ((idx : ℕ) → parse_batch_process_key pk ≡ some (k, idx) → pk ≡ key idx)
      → pk ≢ key (suc i)
      → get_elem? (slots k g) i ≡ some r
      → get_elem? (slots k (record_response pk resp g)) i ≡ some r
  slot-record_other k pk i key r resp g own ne e = elim (parse_cases k pk) [
    | inr h ↦ rw (slots-record_other k pk resp g h) e
    | inl (idx, h) ↦ rw (slots-record_own k pk idx resp g h) (
        put_slot_ne i idx resp (slots k g) (λ q. ne (own idx h ∙ ap key q)) (parse_pos pk k idx h)
          (lt_of_get_elem? (slots k g) i e)
        ∙ e)
  ]

  slot_kept :
      (k : Key) (i : ℕ) (key : ℕ → Key) (r : Response V E P) (log : List (Key × Response V E P))
      (g : Goroutine C V E P)
      → IsOwn k key log
      → lookup (key (suc i)) log ≡ none
      → get_elem? (slots k g) i ≡ some r
      → get_elem? (slots k (record_all log g)) i ≡ some r
  unfolding record_all
  slot_kept k i key r [] g own absent e = e
  slot_kept k i key r ((pk, r') ∷ log) g own absent e =
      slot_kept k i key r log (record_response pk r' g) own.1 (ground arith) (
        slot-record_other k pk i key r r' g own.0
          (λ q. ground (arith, bytes_eq.beq_iff pk (key (suc i)))) e)

  -- A recorded response stands in the slot of its batch.
  pub slot_filled :
      (k : Key) (i : ℕ) (key : ℕ → Key) (r : Response V E P) (log : List (Key × Response V E P))
      (g : Goroutine C V E P)
      → parse_batch_process_key (key (suc i)) ≡ some (k, suc i)
      → IsMap log
      → IsOwn k key log
      → lookup (key (suc i)) log ≡ some r
      → get_elem? (slots k (record_all log g)) i ≡ some r
  unfolding record_all
  slot_filled k i key r [] g parsed m own found = absurd (ground arith)
  slot_filled k i key r ((pk, r') ∷ log) g parsed m own found =
      elim (Bool-cases (pk == key (suc i))) [
        | inl same ↦
            let q = eq_of_beq pk (key (suc i)) same in
            let r_same : r' ≡ r = ground arith in
            slot_kept k i key r log (record_response pk r' g) own.1 (rw (← q) m.0) (
              rw (slots-record_own k pk (suc i) r' g (rw q parsed), put_slot_self i r' (slots k g))
                (ap some r_same))
        | inr differ ↦
            slot_filled k i key r log (record_response pk r' g) parsed m.1 own.1 (ground arith)
      ]

  slots_within :
      (k : Key) (n : ℕ) (log : List (Key × Response V E P)) (g : Goroutine C V E P)
      → IsWithin k n log
      → length (slots k g) ≤ n
      → length (slots k (record_all log g)) ≤ n
  unfolding record_all
  slots_within k n [] g small h = h
  slots_within k n ((pk, r) ∷ log) g small h =
      slots_within k n log (record_response pk r g) small.1 (elim (parse_cases k pk) [
        | inr other ↦ rw (slots-record_other k pk r g other) h
        | inl (idx, e) ↦
            rw (slots-record_own k pk idx r g e)
              (ground (arith, length-put_slot idx r (slots k g), small.0 idx e))
      ])

  -- However the workers' responses interleave, a step's batch results are the responses of its
  -- batches in the order of the batches: `rs` are the responses that the log holds under the keys
  -- of the step's batches.
  pub slots-record_all :
      (k : Key) (key : ℕ → Key) (rs : List (Response V E P)) (log : List (Key × Response V E P))
      (g : Goroutine C V E P)
      → ((i : ℕ) → i < length rs → parse_batch_process_key (key (suc i)) ≡ some (k, suc i))
      → ((i : ℕ) → i < length rs → lookup (key (suc i)) log ≡ get_elem? rs i)
      → IsMap log
      → IsOwn k key log
      → IsWithin k (length rs) log
      → slots k g ≡ []
      → slots k (record_all log g) ≡ rs
  slots-record_all k key rs log g parsed found m own small start =
      list_ext (slots k (record_all log g)) rs
        (slots_within k (length rs) log g small (rw start (omega arith)))
        (λ i lt.
          let (r, e) = get_elem?_of_lt rs i lt in
          slot_filled k i key r log g (parsed i lt) m own (found i lt ∙ e) ∙ sym e)
