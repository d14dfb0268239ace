-- ===== src/Goroutine/Keys.antt =====
-- The process keys of batches: how `buildJobs` makes them and `parseBatchProcessKey` reads them.
use go_utility.Base.{
  ℕ, ◌+◌, ◌<◌, ◌≡◌, Option, none, some, List, ◌∷◌, ◌++◌, arith, length, ap, ◌∙◌, zero, suc,
  Option-cases, inl, inr,
}
use go_utility.Base.Int.{ℤ, pos, negsuc}
use go_utility.Base.Text.{
  codes, take, drop, index, itoa, atoi, index-append, atoi-itoa, take-append_length, drop_add,
  drop-append_length,
}
use go_utility.Goroutine.{Key}

-- "#batch_"
abbrev pub sep : List ℕ
sep = b'#' ∷ codes "batch_"

-- fmt.Sprintf("%s#batch_%d", stepKey, n)
unfoldable pub batch_key : Key → ℕ → Key
batch_key step_key n = step_key ++ (sep ++ itoa n)

-- fmt.Sprintf("%s#batch_all", stepKey)
unfoldable pub batch_all_key : Key → Key
batch_all_key step_key = step_key ++ (sep ++ codes "all")

-- The index is the `int` that `Atoi` returns, which is positive.
abbrev positive : ℤ → Option ℕ
positive (pos zero) = none
positive (pos (suc n)) = some (suc n)
positive (negsuc n) = none

unfoldable pub parse_batch_process_key : Key → Option (Key × ℕ)
parse_batch_process_key process_key = elim (index sep process_key) [
  | none ↦ none
  | some i ↦ elim (atoi (drop (i + 7) process_key)) [
    | none ↦ none
    | some z ↦ elim (positive z) [ none ↦ none | some n ↦ some (take i process_key, n) ]
  ]
]

positive_pos : (z : ℤ) (n : ℕ) → positive z ≡ some n → 0 < n
positive_pos (pos zero) n h = absurd (ground arith)
positive_pos (pos (suc m)) n h = ground arith
positive_pos (negsuc m) n h = absurd (ground arith)

-- The index that is read from a key is positive.
pub parse_pos : (pk k : Key) (n : ℕ) → parse_batch_process_key pk ≡ some (k, n) → 0 < n
unfolding parse_batch_process_key
parse_pos pk k n h = elim (Option-cases (index sep pk)) [
  | inl e ↦ absurd (ground arith)
  | inr (i, e) ↦ elim (Option-cases (atoi (drop (i + 7) pk))) [
    | inl f ↦ absurd (ground arith)
    | inr (z, f) ↦ ground (arith, positive_pos z n)
  ]
]

index_key : (k rest : Key) → index sep k ≡ none → index sep (k ++ (sep ++ rest)) ≡ some (length k)
index_key k rest h = index-append b'#' (codes "batch_") k rest (omega arith) h

drop_key : (k rest : Key) → drop (length k + 7) (k ++ (sep ++ rest)) ≡ rest
drop_key k rest =
    drop_add (length k) 7 (k ++ (sep ++ rest)) ∙ ap (drop 7) (drop-append_length k (sep ++ rest))

-- The key of a batch is read back, for a step key that does not hold "#batch_" itself.
pub parse-batch_key :
    (k : Key) (n : ℕ)
    → index sep k ≡ none
    → 0 < n
    → n < 9223372036854775808
    → parse_batch_process_key (batch_key k n) ≡ some (k, n)
unfolding parse_batch_process_key batch_key
parse-batch_key k zero h some_pos lt = elim some_pos [ ]
parse-batch_key k (suc n) h some_pos lt = ground (
  arith,
  index_key k (itoa (suc n)) h,
  drop_key k (itoa (suc n)),
  atoi-itoa (suc n) lt,
  take-append_length k (sep ++ itoa (suc n)),
)

-- The key of an unsplit batch and a key without "#batch_" are no batch keys.
pub parse-batch_all_key :
    (k : Key)
    → index sep k ≡ none
    → (parse_batch_process_key (batch_all_key k) ≡ none) × (parse_batch_process_key k ≡ none)
unfolding parse_batch_process_key batch_all_key atoi
parse-batch_all_key k h = ground (arith, index_key k (codes "all") h, drop_key k (codes "all"))

-- Two batches have one process key only if they are the same batch of the same step.
pub batch_key_injective :
    (k k' : Key) (n n' : ℕ)
    → index sep k ≡ none
    → index sep k' ≡ none
    → (0 < n) × (n < 9223372036854775808)
    → (0 < n') × (n' < 9223372036854775808)
    → batch_key k n ≡ batch_key k' n'
    → (k ≡ k') × (n ≡ n')
batch_key_injective k k' n n' h h' (p, lt) (p', lt') e =
    let read = parse-batch_key k n h p lt in
    let read' = parse-batch_key k' n' h' p' lt' in ground (arith, read, read', e)
