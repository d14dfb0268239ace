-- ===== src/ApiResponse/Pages.antt =====
-- responsew/response.go: the offset of a page, and whether there is a next one.
use go_utility.Base.{
  ℕ, zero, suc, ◌*◌, ◌≤◌, ◌<◌, String, Bool, true, false, ◌≡◌, ◌↔◌, ◌≢◌, refl, sym, ◌∙◌, ap, subst,
  Option, List, [], ◌∷◌, length, ltb, arith,
}
use go_utility.Base.Int.{pos, pos_part, to_int64, to_int64_id, ◌-ℤ◌, ◌*ℤ◌, ltb_ℤ}
use go_utility.Base.Text.{take, drop}
use native.Mathlib.Nat.{mul-suc}
use go_utility.ApiResponse.{
  Pagination, BaseResponse, paginated, get_limit, get_offset, page_response,
}

module _ {D : Type 0} where
  -- `has_next_page` of an answer that holds a page.
  abbrev pub has_next : BaseResponse D → Bool
  has_next r = elim (r.data_of) [ paginated d ↦ d.has_next_page | _ ↦ false ]

-- Page `p + 1` of pages of `n` items.
abbrev pub page_at : ℕ → ℕ → Pagination
page_at p n = record { page = pos (suc p); per_page = pos n }

-- The rows that SQL's LIMIT and OFFSET keep for a page.
abbrev pub shown {ℓ} : {A : Type ℓ} → Pagination → List A → List A
shown p rows = take (pos_part (get_limit p)) (drop (pos_part (get_offset p)) rows)

previous : (p : ℕ) → pos (suc p) -ℤ pos 1 ≡ pos p
unfolding ◌-ℤ◌
previous p = ground arith

pos-mul : (a b : ℕ) → pos a *ℤ pos b ≡ pos (a * b)
unfolding ◌*ℤ◌
pos-mul a b = ground arith

int64_pos : (n : ℕ) → n < 9223372036854775808 → to_int64 (pos n) ≡ pos n
int64_pos n h = to_int64_id (pos n) (omega arith, omega arith)

le_mul : (p n : ℕ) → 0 < n → p ≤ p * n
le_mul p zero h = absurd (omega arith)
le_mul p (suc n) h = omega (arith, mul-suc p n)

pub offset_of :
    (p n : ℕ) → 0 < n → p * n < 9223372036854775808 → get_offset (page_at p n) ≡ pos (p * n)
unfolding get_offset
offset_of p n h lt =
    ap (λ z. to_int64 (to_int64 z *ℤ pos n)) (previous p)
    ∙ ap (λ z. to_int64 (z *ℤ pos n)) (int64_pos p (omega (arith, le_mul p n h)))
    ∙ ap to_int64 (pos-mul p n)
    ∙ int64_pos (p * n) lt

-- Rows are left after the first `m` just when there are more than `m`.
left_over {ℓ} :
    {A : Type ℓ} (m n : ℕ) (rows : List A) → 0 < n → (m < length rows) ↔ (take n (drop m rows) ≢ [])
left_over m zero rows h = absurd (omega arith)
left_over zero (suc n) [] h = ((λ lt. absurd (omega arith)), (λ ne. absurd (ne refl)))
left_over zero (suc n) (x ∷ rows) h = ((λ lt e. absurd (ground arith)), (λ ne. omega arith))
left_over (suc m) (suc n) [] h = ((λ lt. absurd (omega arith)), (λ ne. absurd (ne refl)))
left_over (suc m) (suc n) (x ∷ rows) h =
    let (there, back) = left_over m (suc n) rows h in
    ((λ lt. there (omega arith)), (λ ne. omega (arith, back ne)))

-- The flag of page `p + 1`, when the product of page and size is an int64.
has_next-page_response :
    {D : Type 0} (p n total : ℕ) (items : Option D) (msg : String)
    → suc p * n < 9223372036854775808
    → has_next (page_response (page_at p n) items (pos total) msg) ≡ ltb (suc p * n) total
unfolding page_response
has_next-page_response p n total items msg lt =
    ap (λ z. ltb_ℤ z (pos total)) (ap to_int64 (pos-mul (suc p) n) ∙ int64_pos (suc p * n) lt)
    ∙ ground arith

-- While the product of page and size is an int64, a page of at least one item says that there is
-- a next page exactly when the next page's limit and offset leave some of the rows.
pub has_next-shown {ℓ} :
    {A : Type ℓ} {D : Type 0} (p n : ℕ) (rows : List A) (items : Option D) (msg : String)
    → 0 < n
    → suc p * n < 9223372036854775808
    → (has_next (page_response (page_at p n) items (pos (length rows)) msg) ≡ true)
      ↔ (shown (page_at (suc p) n) rows ≢ [])
unfolding get_limit
has_next-shown p n rows items msg h lt =
    let (there, back) = left_over (suc p * n) n rows h in
    let flag = has_next-page_response p n (length rows) items msg lt in
    let start = offset_of (suc p) n h lt in
    (
      (λ e. subst (λ o. take n (drop (pos_part o) rows) ≢ []) (sym start) (there (ground arith))),
      (λ ne.
          flag ∙ ground (arith, back (subst (λ o. take n (drop (pos_part o) rows) ≢ []) start ne))),
    )
