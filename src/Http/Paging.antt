-- ===== src/Http/Paging.antt =====
-- httpw: the pages that `ParsePagination` asks for, one after the other.
use go_utility.Base.{
  ℕ, zero, suc, ◌+◌, ◌-◌, ◌*◌, ◌≤◌, ◌<◌, ◌≡◌, ◌≢◌, refl, sym, ◌∙◌, ap, Bool-cases, ◌&&◌, inl, inr,
  some, List, [], ◌∷◌, ◌++◌, ltb, leb, if◌then◌else◌, arith,
}
use go_utility.Base.Int.{pos, pos_part}
use go_utility.Base.Text.{take, drop, itoa, digits, itoa_from-digits, itoa_ne}
use native.Mathlib.Nat.{suc-add, suc-mul, zero-mul, mul-le-mul_left}
use go_utility.ApiResponse.{Pagination, get_limit}
use go_utility.ApiResponse.Pages.{page_at, shown, offset_of}
use go_utility.Http.{limited}
use go_utility.Http.Echo as echo
use go_utility.Http.Gin as gin
use go_utility.Http.Mux as mux

-- The number of rows of a page, for the one that was asked for.
abbrev pub size : ℕ → ℕ
size n = if leb n 0 then 10 else (if ltb 100 n then 100 else n)

-- The first `k` pages in a row.
abbrev pub walk {ℓ} : {A : Type ℓ} → (ℕ → Pagination) → ℕ → List A → List A
walk ask zero rows = []
walk ask (suc k) rows = walk ask k rows ++ shown (ask (suc k)) rows

size_bounds : (n : ℕ) → (0 < size n) × (size n ≤ 100)
size_bounds n = ground arith

limited_at : (k n : ℕ) → limited (pos (suc k)) (pos n) ≡ page_at k (size n)
unfolding limited
limited_at k n = ground arith

take_nil {ℓ} : {A : Type ℓ} (n : ℕ) → take {A = A} n [] ≡ []
take_nil zero = refl
take_nil (suc n) = refl

take-drop {ℓ} :
    {A : Type ℓ} (m n : ℕ) (rows : List A) → take m rows ++ take n (drop m rows) ≡ take (m + n) rows
take-drop zero n rows = ap (λ j. take j rows) (omega arith)
take-drop (suc m) n [] = take_nil n ∙ sym (take_nil (suc m + n))
take-drop (suc m) n (x ∷ rows) = rw suc-add (ap (λ l. x ∷ l) (take-drop m n rows))

digits_grow : (acc : ℕ) (s : List ℕ) (n : ℕ) → digits acc s ≡ some n → acc ≤ n
unfolding digits
digits_grow acc [] n h = ground arith
digits_grow acc (c ∷ s) n h = elim (Bool-cases (leb b'0' c && leb c b'9')) [
  | inl digit ↦ omega (arith, digits_grow (acc * 10 + (c - b'0')) s n (rw (digit, digits) at h))
  | inr end ↦ ground arith
]

parse_uint-digits :
    (acc : ℕ) (s : List ℕ) (n : ℕ)
    → digits acc s ≡ some n
    → n < 18446744073709551616
    → mux.parse_uint acc s ≡ some n
unfolding digits mux.parse_uint
parse_uint-digits acc [] n h lt = h
parse_uint-digits acc (c ∷ s) n h lt =
    ground (
      arith,
      digits_grow (acc * 10 + (c - b'0')) s n,
      parse_uint-digits (acc * 10 + (c - b'0')) s n,
    )

atoi_value_of :
    (s : List ℕ) (n : ℕ)
    → s ≢ []
    → digits 0 s ≡ some n
    → n < 9223372036854775808
    → mux.atoi_value s ≡ pos n
unfolding mux.atoi_value digits
atoi_value_of [] n h e lt = absurd (h refl)
atoi_value_of (c ∷ s) n h e lt = ground (arith, parse_uint-digits 0 (c ∷ s) n e)

atoi_value-itoa : (n : ℕ) → n < 9223372036854775808 → mux.atoi_value (itoa n) ≡ pos n
unfolding itoa
atoi_value-itoa n h =
    atoi_value_of (itoa n) n (itoa_ne n) (itoa_from-digits (suc n) n (omega arith)) h

size_room : (k n : ℕ) → k ≤ 92233720368547758 → k * size n < 9223372036854775808
size_room k n h = omega (arith, mul-le-mul_left k (size_bounds n).1)

walk_same {ℓ} :
    {A : Type ℓ} (ask ask' : ℕ → Pagination) (k : ℕ) (rows : List A)
    → ((p : ℕ) → p ≤ k → ask p ≡ ask' p)
    → walk ask k rows ≡ walk ask' k rows
walk_same ask ask' zero rows h = refl
walk_same ask ask' (suc k) rows h =
    rw (walk_same ask ask' k rows (λ p le. h p (omega arith)), h (suc k) (omega arith)) refl

shown_at {ℓ} :
    {A : Type ℓ} (k n : ℕ) (rows : List A)
    → 0 < n
    → k * n < 9223372036854775808
    → shown (page_at k n) rows ≡ take n (drop (k * n) rows)
unfolding get_limit
shown_at k n rows h lt = ap (λ z. take n (drop (pos_part z) rows)) (offset_of k n h lt)

walk-limited {ℓ} :
    {A : Type ℓ} (k n : ℕ) (rows : List A)
    → k ≤ 92233720368547758
    → walk (λ p. limited (pos p) (pos n)) k rows ≡ take (k * size n) rows
walk-limited zero n rows h = rw (zero-mul) refl
walk-limited (suc k) n rows h =
    rw
      (
        walk-limited k n rows (omega arith),
        limited_at k n,
        shown_at k (size n) rows (size_bounds n).0 (size_room k n (omega arith)),
        take-drop (k * size n) (size n) rows,
      )
      (ap (λ j. take j rows) (omega (arith, suc-mul k (size n))))

-- Who asks for the pages 1 to `k` of `n` rows, in turn, gets the first rows of the list in their order,
-- each once, as many as `k` pages have; a page has `n` rows, but 10 where `n` is 0, and never more than
-- 100. It holds for the three frameworks while `k` is at most 92233720368547758 and `n` is an int.
pub parse_pagination-walk {ℓ} :
    {A : Type ℓ} (k n : ℕ) (rows : List A)
    → k ≤ 92233720368547758
    → n < 9223372036854775808
    → (walk (λ p. echo.parse_pagination (pos p) (pos n)) k rows ≡ take (k * size n) rows)
      × (walk (λ p. gin.parse_pagination (pos p) (pos n)) k rows ≡ take (k * size n) rows)
      × (walk (λ p. mux.parse_pagination (itoa p) (itoa n)) k rows ≡ take (k * size n) rows)
      × (0 < size n)
      × (size n ≤ 100)
unfolding echo.parse_pagination gin.parse_pagination mux.parse_pagination
parse_pagination-walk k n rows hk hn =
    let direct = walk-limited k n rows hk in
    (
      direct,
      direct,
      walk_same (λ p. mux.parse_pagination (itoa p) (itoa n)) (λ p. limited (pos p) (pos n)) k rows
            (λ p le. rw (atoi_value-itoa p (omega arith), atoi_value-itoa n hn) refl)
          ∙ direct,
      (size_bounds n).0,
      (size_bounds n).1,
    )
