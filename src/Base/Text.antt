-- ===== src/Base/Text.antt =====
-- Go's byte strings as lists of bytes: `strings.Index`, `strings.HasPrefix`, slicing, and the
-- decimal forms of `fmt` and `strconv.Atoi`.
use Prim.Native.Nat.{ℕ, zero, suc, ◌+◌, ◌-◌, ◌*◌, ◌/◌, ◌%◌, ◌≤◌, ◌<◌}
use Prim.Native.Char.{code}
use Prim.Native.String.{String}
use mathlib.Core.Path.{◌≡◌, refl, ap, sym, ◌∙◌}
use mathlib.Core.Logic.{◌≢◌, inl, inr}
use mathlib.Core.Bool.{Bool, true, false, ◌&&◌}
use mathlib.Core.Option.{Option, none, some}
use mathlib.Core.List.{List, [], ◌∷◌, ◌++◌}
use native.Mathlib.Nat.{suc-add}
use native.Mathlib.Omega.{arith}
use go_utility.Base.Tests.{ltb, leb, nat_beq, if◌then◌else◌, Bool-cases}
use go_utility.Base.Lists.{length, All}
use go_utility.Base.Int.{ℤ, pos, sub_ℕ}

-- The bytes of an ASCII literal.
abbrev pub codes : String → List ℕ
codes String.[] = []
codes (String.◌∷◌ c s) = code c ∷ codes s

module _ {ℓ} {A : Type ℓ} where
  abbrev pub take : ℕ → List A → List A
  take zero xs = []
  take (suc n) [] = []
  take (suc n) (x ∷ xs) = x ∷ take n xs

  abbrev pub drop : ℕ → List A → List A
  drop zero xs = xs
  drop (suc n) [] = []
  drop (suc n) (x ∷ xs) = drop n xs

  pub take-append_length : (xs ys : List A) → take (length xs) (xs ++ ys) ≡ xs
  take-append_length [] ys = refl
  take-append_length (x ∷ xs) ys = ap (λ l. x ∷ l) (take-append_length xs ys)

  pub drop-append_length : (xs ys : List A) → drop (length xs) (xs ++ ys) ≡ ys
  drop-append_length [] ys = refl
  drop-append_length (x ∷ xs) ys = drop-append_length xs ys

  drop_nil : (n : ℕ) → ◌≡◌ {A = List A} (drop n []) []
  drop_nil zero = refl
  drop_nil (suc n) = refl

  pub drop_add : (m n : ℕ) (xs : List A) → drop (m + n) xs ≡ drop n (drop m xs)
  drop_add zero n xs = ground arith
  drop_add (suc m) n [] = rw suc-add (sym (drop_nil n))
  drop_add (suc m) n (x ∷ xs) = rw suc-add (drop_add m n xs)

  pub length-drop : (n : ℕ) (xs : List A) → length (drop n xs) ≡ length xs - n
  length-drop zero xs = omega arith
  length-drop (suc n) [] = omega arith
  length-drop (suc n) (x ∷ xs) = omega (arith, length-drop n xs)

  pub length-take : (n : ℕ) (xs : List A) → n ≤ length xs → length (take n xs) ≡ n
  length-take zero xs h = refl
  length-take (suc n) [] h = elim h [ ]
  length-take (suc n) (x ∷ xs) h = omega (arith, length-take n xs (omega arith))

  pub take-append-drop : (n : ℕ) (xs : List A) → take n xs ++ drop n xs ≡ xs
  take-append-drop zero xs = refl
  take-append-drop (suc n) [] = refl
  take-append-drop (suc n) (x ∷ xs) = ap (λ l. x ∷ l) (take-append-drop n xs)

abbrev pub has_prefix : List ℕ → List ℕ → Bool
has_prefix [] s = true
has_prefix (p ∷ ps) [] = false
has_prefix (p ∷ ps) (c ∷ s) = elim (nat_beq p c) [ true ↦ has_prefix ps s | false ↦ false ]

-- `strings.Index`: the first position at which `sep` stands.
unfoldable pub index : List ℕ → List ℕ → Option ℕ
index sep [] = if has_prefix sep [] then some 0 else none
index sep (c ∷ s) =
    let rest = index sep s in
    if has_prefix sep (c ∷ s) then some 0 else (elim rest [ none ↦ none | some i ↦ some (suc i) ])

pub has_prefix-append : (p s : List ℕ) → has_prefix p (p ++ s) ≡ true
has_prefix-append [] s = refl
has_prefix-append (c ∷ p) s = ground (arith, has_prefix-append p s)

-- A prefix without the byte `b` is not completed by what stands from a `b` on.
has_prefix-append_byte :
    (b : ℕ) (p k t : List ℕ) → All (λ c. c ≢ b) p → has_prefix p (k ++ b ∷ t) ≡ has_prefix p k
has_prefix-append_byte b [] k t h = refl
has_prefix-append_byte b (c ∷ p) [] t h = ground (arith, h.0)
has_prefix-append_byte b (c ∷ p) (d ∷ k) t h = ground (arith, has_prefix-append_byte b p k t h.1)

-- A separator whose first byte does not occur again is found right behind a text without it.
pub index-append :
    (b : ℕ) (p k t : List ℕ)
    → All (λ c. c ≢ b) p
    → index (b ∷ p) k ≡ none
    → index (b ∷ p) (k ++ ((b ∷ p) ++ t)) ≡ some (length k)
unfolding index
index-append b p [] t h e = ground (arith, has_prefix-append p t)
index-append b p (c ∷ k) t h e =
    ground (arith, has_prefix-append_byte b p k (p ++ t) h, index-append b p k t h)

-- `%d` of a natural number.
unfoldable pub itoa_from : ℕ → ℕ → List ℕ
itoa_from zero n = []
itoa_from (suc f) n =
    let rest = itoa_from f (n / 10) in
    if ltb n 10 then (b'0' + n) ∷ [] else rest ++ (b'0' + n % 10) ∷ []

unfoldable pub itoa : ℕ → List ℕ
unfolding itoa_from
itoa n = itoa_from (suc n) n

unfoldable pub digits : ℕ → List ℕ → Option ℕ
digits acc [] = some acc
digits acc (c ∷ s) = elim (leb b'0' c && leb c b'9') [
  | true ↦ digits (acc * 10 + (c - b'0')) s
  | false ↦ none
]

-- `strconv.ParseUint`'s digits, at least one.
abbrev pub digits₁ : List ℕ → Option ℕ
digits₁ [] = none
digits₁ (c ∷ s) = digits 0 (c ∷ s)

-- `strconv.Atoi`: an optional sign, digits, and the range of `int`; `none` is an error.
unfoldable pub atoi : List ℕ → Option ℤ
unfolding digits
atoi [] = none
atoi (c ∷ s) =
    if nat_beq c b'-'
    then (elim (digits₁ s) [
      | none ↦ none
      | some n ↦ if leb n 9223372036854775808 then some (sub_ℕ 0 n) else none
    ])
    else (elim (if nat_beq c b'+' then digits₁ s else digits 0 (c ∷ s)) [
      | none ↦ none
      | some n ↦ if ltb n 9223372036854775808 then some (pos n) else none
    ])

digits-append :
    (acc : ℕ) (s : List ℕ) (c : ℕ) {n : ℕ}
    → digits acc s ≡ some n
    → digits acc (s ++ c ∷ []) ≡ digits n (c ∷ [])
unfolding digits
digits-append acc [] c h = ground arith
digits-append acc (d ∷ s) c {n} h =
    ground (arith, digits-append (acc * 10 + (d - b'0')) s c {n = n})

pub itoa_from-digits : (f n : ℕ) → n < f → digits 0 (itoa_from f n) ≡ some n
unfolding itoa_from digits
itoa_from-digits zero n h = elim h [ ]
itoa_from-digits (suc f) n h = elim (Bool-cases (ltb n 10)) [
  | inl small ↦ ground arith
  | inr large ↦ rw large (
      digits-append 0 (itoa_from f (n / 10)) (b'0' + n % 10)
        (itoa_from-digits f (n / 10) (ground arith))
      ∙ ground arith)
]

atoi_of_digits :
    (s : List ℕ) (n : ℕ)
    → s ≢ []
    → digits 0 s ≡ some n
    → n < 9223372036854775808
    → atoi s ≡ some (pos n)
unfolding atoi
atoi_of_digits [] n h e lt = absurd (h refl)
atoi_of_digits (c ∷ s) n h e lt = ground arith

append_ne : (xs : List ℕ) (c : ℕ) → xs ++ c ∷ [] ≢ []
append_ne [] c h = cc
append_ne (x ∷ xs) c h = cc

pub itoa_ne : (n : ℕ) → itoa n ≢ []
unfolding itoa
itoa_ne n h = ground (arith, append_ne (itoa_from n (n / 10)) (b'0' + n % 10))

pub atoi-itoa : (n : ℕ) → n < 9223372036854775808 → atoi (itoa n) ≡ some (pos n)
unfolding itoa
atoi-itoa n h = atoi_of_digits (itoa n) n (itoa_ne n) (itoa_from-digits (suc n) n (omega arith)) h

-- Where a separator is not found, it stands neither here nor later.
pub index-eq-none_cons :
    (p : List ℕ) (c : ℕ) (s : List ℕ)
    → index p (c ∷ s) ≡ none
    → (has_prefix p (c ∷ s) ≡ false) × (index p s ≡ none)
unfolding index
index-eq-none_cons p c s h = ground arith

-- A text that begins with another and a separator holds the separator.
pub index_of_prefix :
    (b : ℕ) (p a k : List ℕ) → has_prefix (a ++ b ∷ p) k ≡ true → index (b ∷ p) k ≢ none
index_of_prefix b p [] [] h e = absurd (ground arith)
index_of_prefix b p [] (c ∷ k) h e = absurd (ground (arith, (index-eq-none_cons (b ∷ p) c k e).0))
index_of_prefix b p (d ∷ a) [] h e = absurd (ground arith)
index_of_prefix b p (d ∷ a) (c ∷ k) h e =
    index_of_prefix b p a k (ground arith) (index-eq-none_cons (b ∷ p) c k e).1
