-- ===== src/Response/Order.antt =====
-- echo_error.go, `ConvertError`: the sorted keys, and the key that the loop over them picks.
use go_utility.Base.{
  Bool, true, false, Option, none, some, List, [], ◌∷◌, ◌≡◌, refl, sym, ◌∙◌, ap, ◌||◌, inl, inr,
  Bool-cases, arith,
}
use go_utility.Base.Int.{ℤ, ◌≤ℤ◌, ◌<ℤ◌, ltb_ℤ, eq_of_parts}
use go_utility.Base.Codes.{int_eq, int_beq, int_beq_iff}
use go_utility.Response.{sort_desc, insert_desc, pick}

abbrev pub elem : ℤ → List ℤ → Bool
elem k [] = false
elem k (j ∷ js) = int_beq j k || elem k js

-- No key is above the ones before it.
abbrev IsDesc : List ℤ → Type 0
IsDesc [] = Unit
IsDesc (k ∷ ks) = ((j : ℤ) → elem j ks ≡ true → j ≤ℤ k) × IsDesc ks

elem-insert_desc : (k j : ℤ) (ks : List ℤ) → elem k (insert_desc j ks) ≡ (int_beq j k || elem k ks)
elem-insert_desc k j [] = refl
elem-insert_desc k j (i ∷ ks) = ground (arith, elem-insert_desc k j ks)

pub elem-sort_desc : (k : ℤ) (ks : List ℤ) → elem k (sort_desc ks) ≡ elem k ks
unfolding sort_desc
elem-sort_desc k [] = refl
elem-sort_desc k (j ∷ ks) =
    elem-insert_desc k j (sort_desc ks) ∙ ap (λ b. int_beq j k || b) (elem-sort_desc k ks)

insert_desc-IsDesc : (k : ℤ) (ks : List ℤ) → IsDesc ks → IsDesc (insert_desc k ks)
insert_desc-IsDesc k [] h = ((λ j e. absurd (ground arith)), tt)
insert_desc-IsDesc k (i ∷ ks) h = elim (Bool-cases (ltb_ℤ k i)) [
  | inl lt ↦ rw lt (
    (λ j e. ground (arith, elem-insert_desc j k ks, int_beq_iff k j, h.0 j)),
    insert_desc-IsDesc k ks h.1,
  )
  | inr ge ↦ rw ge ((λ j e. ground (arith, int_beq_iff i j, h.0 j)), h)
]

pub sort_desc-IsDesc : (ks : List ℤ) → IsDesc (sort_desc ks)
unfolding sort_desc
sort_desc-IsDesc [] = tt
sort_desc-IsDesc (k ∷ ks) = insert_desc-IsDesc k (sort_desc ks) (sort_desc-IsDesc ks)

-- The greatest of the keys that are not above the code.
pub record IsGreatest (code : ℤ) (ks : List ℤ) (k : ℤ) : Type 0 where
  pub found : elem k ks ≡ true
  pub below : k ≤ℤ code
  pub greatest : (j : ℤ) → elem j ks ≡ true → j ≤ℤ code → j ≤ℤ k

abbrev pub Picked : ℤ → List ℤ → Option ℤ → Type 0
Picked code ks none = (j : ℤ) → elem j ks ≡ true → code <ℤ j
Picked code ks (some k) = IsGreatest code ks k

-- A key above the code changes nothing.
pick_further :
    (code k : ℤ) (ks : List ℤ) (o : Option ℤ)
    → code <ℤ k
    → Picked code ks o
    → Picked code (k ∷ ks) o
pick_further code k ks none lt h = λ j e. ground (arith, int_beq_iff k j, h j)
pick_further code k ks (some i) lt h = record {
  found = ground (arith, h.found);
  below = h.below;
  greatest = λ j e le. ground (arith, int_beq_iff k j, h.greatest j);
}

pub Picked-same :
    (code : ℤ) (js ks : List ℤ) (o : Option ℤ)
    → ((j : ℤ) → elem j js ≡ elem j ks)
    → Picked code js o
    → Picked code ks o
Picked-same code js ks none same h = λ j e. h j (same j ∙ e)
Picked-same code js ks (some k) same h = record {
  found = sym (same k) ∙ h.found;
  below = h.below;
  greatest = λ j e le. h.greatest j (same j ∙ e) le;
}

-- Two picks from the same keys are the same.
pub Picked-unique :
    (code : ℤ) (ks : List ℤ) (o o' : Option ℤ) → Picked code ks o → Picked code ks o' → o ≡ o'
Picked-unique code ks none none h h' = refl
Picked-unique code ks none (some k) h h' = absurd (ground (arith, h k, h'.found, h'.below))
Picked-unique code ks (some k) none h h' = absurd (ground (arith, h' k, h.found, h.below))
Picked-unique code ks (some k) (some k') h h' =
    ground (arith, eq_of_parts k k', h.greatest k' h'.found h'.below, h'.greatest k h.found h.below)

pick_sorted : (code : ℤ) (ks : List ℤ) → IsDesc ks → Picked code ks (pick code ks)
unfolding pick
pick_sorted code [] h = λ j e. absurd (ground arith)
pick_sorted code (k ∷ ks) h = elim (Bool-cases (ltb_ℤ code k)) [
  | inl lt ↦ rw lt (pick_further code k ks (pick code ks) (ground arith) (pick_sorted code ks h.1))
  | inr ge ↦ rw ge (record {
    found = ground (arith, int_beq_iff k k);
    below = ground arith;
    greatest = λ j e le. ground (arith, int_beq_iff k j, h.0 j);
  })
]

-- The loop of `ConvertError` over its sorted keys finds the greatest that is not above the code.
pub pick-sort_desc : (code : ℤ) (ks : List ℤ) → Picked code ks (pick code (sort_desc ks))
pick-sort_desc code ks =
    Picked-same code (sort_desc ks) ks (pick code (sort_desc ks)) (λ j. elem-sort_desc j ks)
      (pick_sorted code (sort_desc ks) (sort_desc-IsDesc ks))
