-- ===== src/Mail/Lines.antt =====
-- emailw: the lines of an attachment.
use go_utility.Base.{
  ℕ, zero, suc, ◌+◌, ◌-◌, ◌*◌, ◌/◌, ◌%◌, ◌≤◌, ◌<◌, ◌≡◌, ◌≢◌, refl, sym, ap, ◌∙◌, subst, Bool-cases,
  inl, inr, List, [], ◌∷◌, ◌++◌, length, ltb, All, arith,
}
use go_utility.Base.Text.{take, drop, drop_add}
use go_utility.Mail.{Attachment, base64_digit, base64, line_at, lines_from, attachment_lines}

-- Not a dash and not the end of a line.
abbrev pub IsInner : ℕ → Type 0
IsInner c = (c ≢ 45) × (c ≢ 13) × (c ≢ 10)

digit-IsInner : (n : ℕ) → n < 64 → IsInner (base64_digit n)
unfolding base64_digit
digit-IsInner n h = ground arith

abbrev pub IsByte : ℕ → Type 0
IsByte n = n < 256

base64-IsInner : (bs : List ℕ) → All IsByte bs → All IsInner (base64 bs)
unfolding base64
base64-IsInner [] h = tt
base64-IsInner (a ∷ []) (ha, h) = (
  digit-IsInner (a / 4) (omega arith),
  (digit-IsInner (a % 4 * 16) (omega arith), (ground arith, (ground arith, tt))),
)
base64-IsInner (a ∷ b ∷ []) (ha, (hb, h)) = (
  digit-IsInner (a / 4) (omega arith),
  (
    digit-IsInner (a % 4 * 16 + b / 16) (omega arith),
    (digit-IsInner (b % 16 * 4) (omega arith), (ground arith, tt)),
  ),
)
base64-IsInner (a ∷ b ∷ c ∷ rest) (ha, (hb, (hc, h))) = (
  digit-IsInner (a / 4) (omega arith),
  (
    digit-IsInner (a % 4 * 16 + b / 16) (omega arith),
    (
      digit-IsInner (b % 16 * 4 + c / 64) (omega arith),
      (digit-IsInner (c % 64) (omega arith), base64-IsInner rest h),
    ),
  ),
)

module _ {ℓ} {A : Type ℓ} where
  take_rest : (n : ℕ) (xs : List A) → take n xs ++ drop n xs ≡ xs
  take_rest zero xs = refl
  take_rest (suc n) [] = refl
  take_rest (suc n) (x ∷ xs) = ap (λ l. x ∷ l) (take_rest n xs)

  take_long : (n : ℕ) (xs : List A) → length xs ≤ n → take n xs ≡ xs
  take_long zero [] h = refl
  take_long zero (x ∷ xs) h = absurd (omega arith)
  take_long (suc n) [] h = refl
  take_long (suc n) (x ∷ xs) h = ap (λ l. x ∷ l) (take_long n xs (omega arith))

  length-drop : (n : ℕ) (xs : List A) → length (drop n xs) ≡ length xs - n
  length-drop zero xs = omega arith
  length-drop (suc n) [] = omega arith
  length-drop (suc n) (x ∷ xs) = length-drop n xs ∙ omega arith

-- A line is the next 76 bytes, or what is left.
line_at-take : (i : ℕ) (s : List ℕ) → line_at i s ≡ take 76 (drop i s)
line_at-take i s = elim (Bool-cases (ltb (length s) (i + 76))) [
  | inl last ↦ rw last (
      take_long (length s - i) (drop i s) (omega (arith, length-drop i s))
      ∙ sym (take_long 76 (drop i s) (ground (arith, length-drop i s, last))))
  | inr more ↦ rw more (ap (λ n. take n (drop i s)) {y = 76} (omega arith))
]

length-take_le : (n : ℕ) (s : List ℕ) → length (take n s) ≤ n
length-take_le zero s = omega arith
length-take_le (suc n) [] = omega arith
length-take_le (suc n) (c ∷ s) = omega (arith, length-take_le n s)

take_some : (n : ℕ) (s : List ℕ) → 0 < length s → 0 < length (take (suc n) s)
take_some n [] h = h
take_some n (c ∷ s) h = omega arith

-- The lines one after the other.
abbrev pub flat : List (List ℕ) → List ℕ
flat [] = []
flat (l ∷ ls) = l ++ flat ls

abbrev pub IsLine : List ℕ → Type 0
IsLine l = (0 < length l) × (length l ≤ 76)

drop_all : (i : ℕ) (s : List ℕ) → length s ≤ i → drop i s ≡ []
drop_all zero [] h = refl
drop_all zero (c ∷ s) h = absurd (omega arith)
drop_all (suc i) [] h = refl
drop_all (suc i) (c ∷ s) h = drop_all i s (omega arith)

flat-lines_from :
    (f i : ℕ) (s : List ℕ)
    → length s ≤ f + i
    → (flat (lines_from f i s) ≡ drop i s) × All IsLine (lines_from f i s)
unfolding lines_from
flat-lines_from zero i s h = (sym (drop_all i s (omega arith)), tt)
flat-lines_from (suc f) i s h = elim (Bool-cases (ltb i (length s))) [
  | inl more ↦
      let (joined, fit) = flat-lines_from f (i + 76) s (omega arith) in
      rw (lines_from, more, line_at-take i s)
        (
          ap (λ l. take 76 (drop i s) ++ l) (joined ∙ drop_add i 76 s) ∙ take_rest 76 (drop i s),
          (
            (
              take_some 75 (drop i s) (ground (arith, length-drop i s)),
              length-take_le 76 (drop i s),
            ),
            fit,
          ),
        )
  | inr end ↦ rw (lines_from, end) (sym (drop_all i s (ground arith)), tt)
]

All-split {κ} : (P : ℕ → Type κ) (xs ys : List ℕ) → All P (xs ++ ys) → All P xs × All P ys
All-split P [] ys h = (tt, h)
All-split P (x ∷ xs) ys (here, h) = let (left, right) = All-split P xs ys h in ((here, left), right)

All-flat {κ} : (P : ℕ → Type κ) (ls : List (List ℕ)) → All P (flat ls) → All (All P) ls
All-flat P [] h = tt
All-flat P (l ∷ ls) h = let (left, right) = All-split P l (flat ls) h in (left, All-flat P ls right)

-- The content of an attachment is a list of bytes. Its lines, one after the other, are the whole of its
-- base64 text; each has between 1 and 76 bytes, none of which is a dash or the end of a line, so that no
-- line can be taken for a boundary.
pub attachment_lines-flat :
    (a : Attachment)
    → All IsByte a.content
    → (flat (attachment_lines a) ≡ base64 a.content)
      × All IsLine (attachment_lines a)
      × All (All IsInner) (attachment_lines a)
unfolding attachment_lines
attachment_lines-flat a bytes =
    let encoded = base64 a.content in
    let (joined, fit) = flat-lines_from (length encoded) 0 encoded (omega arith) in
    (
      joined,
      fit,
      All-flat IsInner (attachment_lines a)
          (subst (All IsInner) (sym joined) (base64-IsInner a.content bytes)),
    )
