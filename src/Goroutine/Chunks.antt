-- ===== src/Goroutine/Chunks.antt =====
-- `chunkInterfaces`: a batch cut into chunks.
use go_utility.Base.{
  ℕ, zero, suc, ◌+◌, ◌-◌, ◌≤◌, ◌<◌, ◌≡◌, refl, inl, inr, List, [], ◌∷◌, ◌++◌, arith, length,
  if◌then◌else◌, ltb, Bool-cases, ap, sym, ◌∙◌, append-nil,
}
use mathlib.Core.List.{flatten}
use go_utility.Base.Int.{ℤ, pos, ltb_ℤ, pos_part, ◌<ℤ◌, ◌≤ℤ◌}
use go_utility.Base.Text.{take, drop, take-append-drop, length-drop, length-take, drop_add}

-- `items[i:end]`
abbrev slice {ℓ} : {A : Type ℓ} → ℕ → ℕ → List A → List A
slice i end items = take (end - i) (drop i items)

-- The loop; a round is made for each chunk, so `length items` of them are enough.
chunks_from {ℓ} : {A : Type ℓ} → ℕ → ℕ → List A → ℕ → List (List A)
chunks_from zero size items i = []
chunks_from (suc f) size items i =
    let end = if ltb (length items) (i + size) then length items else i + size in
    let rest = chunks_from f size items (i + size) in
    if ltb i (length items) then slice i end items ∷ rest else []

unfoldable pub chunk_interfaces {ℓ} : {A : Type ℓ} → List A → ℤ → List (List A)
unfolding chunks_from
chunk_interfaces [] size = [] ∷ []
chunk_interfaces (x ∷ xs) size =
    if ltb_ℤ (pos 0) size
    then chunks_from (length (x ∷ xs)) (pos_part size) (x ∷ xs) 0
    else (x ∷ xs) ∷ []

-- Every chunk but the last has `size` items, and the last has at least one and at most `size`.
abbrev pub IsChunked {ℓ} : {A : Type ℓ} → ℕ → List (List A) → Type 0
IsChunked size [] = Unit
IsChunked size (c ∷ []) = (0 < length c) × (length c ≤ size)
IsChunked size (c ∷ (d ∷ cs)) = (length c ≡ size) × IsChunked size (d ∷ cs)

drop_all {ℓ} : {A : Type ℓ} (n : ℕ) (xs : List A) → length xs ≤ n → drop n xs ≡ []
drop_all zero [] h = refl
drop_all (suc n) [] h = refl
drop_all zero (x ∷ xs) h = elim h [ ]
drop_all (suc n) (x ∷ xs) h = drop_all n xs (omega arith)

length-slice {ℓ} :
    {A : Type ℓ} (i end : ℕ) (items : List A)
    → end ≤ length items
    → length (slice i end items) ≡ end - i
length-slice i end items h =
    let room : end - i ≤ length (drop i items) = omega (arith, length-drop i items) in
    length-take (end - i) (drop i items) room

slice_end {ℓ} :
    {A : Type ℓ} (i end : ℕ) (items : List A)
    → i ≤ end
    → slice i end items ++ drop end items ≡ drop i items
slice_end i end items h =
    let split : end ≡ i + (end - i) = omega arith in
    ap (λ e. slice i end items ++ drop e items) split
    ∙ ap (λ l. slice i end items ++ l) (drop_add i (end - i) items)
    ∙ take-append-drop (end - i) (drop i items)

module _ {ℓ} {A : Type ℓ} (size : ℕ) (items : List A) (p : 0 < size) where
  flatten-chunks_from :
      (f i : ℕ) → length items ≤ i + f → flatten (chunks_from f size items i) ≡ drop i items
  unfolding chunks_from flatten
  flatten-chunks_from zero i h = sym (drop_all i items (omega arith))
  flatten-chunks_from (suc f) i h = elim (Bool-cases (ltb i (length items))) [
    | inr past ↦ rw past (sym (drop_all i items (ground arith)))
    | inl more ↦ elim (Bool-cases (ltb (length items) (i + size))) [
      | inr full ↦
          rw (more, full, flatten-chunks_from f (i + size) (omega arith))
            (slice_end i (i + size) items (omega arith))
      | inl last ↦
          rw
            (
              more,
              last,
              flatten-chunks_from f (i + size) (omega arith),
              drop_all (i + size) items (ground arith),
              ← drop_all (length items) items (omega arith),
            )
            (slice_end i (length items) items (ground arith))
    ]
  ]

  chunks_from-IsChunked : (f i : ℕ) → IsChunked size (chunks_from f size items i)
  unfolding chunks_from
  chunks_from-IsChunked zero i = tt
  chunks_from-IsChunked (suc zero) i =
      ground (arith, length-slice i (length items) items, length-slice i (i + size) items)
  chunks_from-IsChunked (suc (suc f)) i = ground (
    arith,
    length-slice i (length items) items,
    length-slice i (i + size) items,
    chunks_from-IsChunked (suc f) (i + size),
  )

-- With a positive size the chunks, joined, are the items in their order, and each but the last is
-- full; without one the only chunk is all the items.
pub chunk_interfaces_lem {ℓ} :
    {A : Type ℓ} (x : A) (xs : List A) (size : ℤ)
    → (flatten (chunk_interfaces (x ∷ xs) size) ≡ x ∷ xs)
      × (pos 0 <ℤ size → IsChunked (pos_part size) (chunk_interfaces (x ∷ xs) size))
      × (size ≤ℤ pos 0 → chunk_interfaces (x ∷ xs) size ≡ (x ∷ xs) ∷ [])
unfolding chunk_interfaces
chunk_interfaces_lem x xs size = (
  elim (Bool-cases (ltb_ℤ (pos 0) size)) [
    | inl h ↦ rw h (
        flatten-chunks_from (pos_part size) (x ∷ xs) (ground arith) (length (x ∷ xs)) 0
          (omega arith))
    | inr h ↦ rw h (unfold flatten in ap (λ l. x ∷ l) (append-nil xs))
  ],
  λ h.
      ground
        (arith, chunks_from-IsChunked (pos_part size) (x ∷ xs) (ground arith) (length (x ∷ xs)) 0),
  λ h. ground arith,
)
