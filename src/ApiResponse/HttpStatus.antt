-- ===== src/ApiResponse/HttpStatus.antt =====
-- responsew/response.go, `Error`: the status that the loop over a code finds.
use go_utility.Base.{
  ℕ, zero, suc, ◌+◌, ◌*◌, ◌/◌, ◌^◌, ◌≤◌, ◌<◌, ◌≡◌, ◌⊎◌, inl, refl, ◌∙◌, ap, if◌then◌else◌, leb,
  arith,
}
use go_utility.Base.Int.{ℤ, pos, negsuc, ◌≤ℤ◌}
use native.Mathlib.Nat.{pow-suc, mul-suc, mul_assoc}
use go_utility.ApiResponse.{cut, http_status}

-- Two amounts of fuel that are not below the code give the same.
pub cut_same : (f g code : ℕ) → code ≤ f → code ≤ g → cut f code ≡ cut g code
unfolding cut
cut_same zero zero code hf hg = refl
cut_same zero (suc g) code hf hg = ground arith
cut_same (suc f) zero code hf hg = ground arith
cut_same (suc f) (suc g) code hf hg =
    ground (arith, cut_same f g (code / 10) (omega arith) (omega arith))

-- One round of the loop.
cut_round : (code : ℕ) → 999 < code → cut code code ≡ cut (code / 10) (code / 10)
unfolding cut
cut_round zero h = absurd (omega arith)
cut_round (suc n) h =
    ground (arith, cut_same n (suc n / 10) (suc n / 10) (omega arith) (omega arith))

-- A code of three digits is not cut.
cut_done : (code : ℕ) → code ≤ 999 → cut code code ≡ code
unfolding cut
cut_done zero h = refl
cut_done (suc n) h = ground arith

pow_pos : (k : ℕ) → 0 < 10 ^ k
pow_pos zero = omega arith
pow_pos (suc k) = omega (arith, pow_pos k, pow-suc 10 k)

le_mul_pos : (d p : ℕ) → 0 < p → d ≤ d * p
le_mul_pos d zero h = absurd (omega arith)
le_mul_pos d (suc p) h = omega (arith, mul-suc d p)

-- The last digit of a code that begins with `d` and has `k` digits after it, and the rest.
shift_digit : (k d r : ℕ) → d * 10 ^ suc k + r ≡ d * 10 ^ k * 10 + r
shift_digit k d r = omega (arith, ap (λ p. d * p) (pow-suc 10 k), mul_assoc d (10 ^ k) 10)

-- A code with more digits is cut to its first three.
cut_prefix :
    (k d r : ℕ) → 100 ≤ d → d ≤ 999 → r < 10 ^ k → cut (d * 10 ^ k + r) (d * 10 ^ k + r) ≡ d
cut_prefix zero d r lo hi h = ap (λ c. cut c c) (omega arith) ∙ cut_done d hi
cut_prefix (suc k) d r lo hi h =
    ap (λ c. cut c c) (shift_digit k d r)
    ∙ cut_round (d * 10 ^ k * 10 + r) (omega (arith, le_mul_pos d (10 ^ k) (pow_pos k)))
    ∙ ap (λ c. cut c c) (omega arith)
    ∙ cut_prefix k d (r / 10) lo hi (omega (arith, pow-suc 10 k))

cut_low : (n : ℕ) → n < 100 → cut n n ≡ n
cut_low n h = cut_done n (omega arith)

-- The status of any code is one of HTTP: it is between 100 and 599. A negative code and one below
-- 100 have 500.
pub http_status_range :
    (code : ℤ)
    → (100 ≤ http_status code)
      × (http_status code ≤ 599)
      × ((http_status code ≡ 500) ⊎ (pos 100 ≤ℤ code))
unfolding http_status
http_status_range (negsuc n) = (omega arith, omega arith, inl refl)
http_status_range (pos n) = ground (arith, cut_low n)

-- A code that begins with three digits, the first of them not 0, and goes on with any number of
-- digits, has those three as its status when they are at most 599, and 500 when they are more.
pub http_status_prefix :
    (k d r : ℕ)
    → 100 ≤ d
    → d ≤ 999
    → r < 10 ^ k
    → http_status (pos (d * 10 ^ k + r)) ≡ (if leb d 599 then d else 500)
unfolding http_status
http_status_prefix k d r lo hi h = ground (arith, cut_prefix k d r lo hi h)
