-- ===== src/Status/Copies.antt =====
-- statusw/status.go: the With* methods never change an error that exists.
use go_utility.Base.{
  ℕ, ◌<◌, String, Option, none, some, List, [], ◌∷◌, ◌++◌, ◌≡◌, refl, ◌∙◌, length, get_elem?, set,
  length-append, get_elem?-append_left, get_elem?-append_end, get_elem?-set_self, get_elem?-set_ne,
  arith,
}
use go_utility.Status.{
  GoError, StatusError, clone, with_field, with_custom_message, with_custom_code, with_error,
  with_data,
}

-- One method of a chain of calls.
pub data Change (D : Type 0) : Type 0 where
  custom_message custom_code : String → Change D
  error : GoError D → Change D
  payload : Option D → Change D

module _ {D : Type 0} where
  -- What a method is to change of an error.
  abbrev pub edit : Change D → StatusError D → StatusError D
  edit (custom_message msg) e = record e { message = msg }
  edit (custom_code code) e = record e { custom_code = code }
  edit (error err) e = record e { cause = err }
  edit (payload d) e = record e { data_of = d }

  abbrev pub edits : List (Change D) → StatusError D → StatusError D
  edits [] e = e
  edits (c ∷ cs) e = edits cs (edit c e)

  unfoldable pub apply_change :
      Change D → ℕ → List (StatusError D) → Option (List (StatusError D) × ℕ)
  unfolding with_custom_message with_custom_code with_error with_data
  apply_change (custom_message msg) = with_custom_message msg
  apply_change (custom_code code) = with_custom_code code
  apply_change (error err) = with_error err
  apply_change (payload d) = with_data d

  -- `e.WithX(…).WithY(…)…`
  unfoldable pub chain :
      List (Change D) → ℕ → List (StatusError D) → Option (List (StatusError D) × ℕ)
  unfolding apply_change
  chain [] p store = some (store, p)
  chain (c ∷ cs) p store = elim (apply_change c p store) [
    | none ↦ none
    | some (store', q) ↦ chain cs q store'
  ]

  -- A store that still holds every error of another, and one more behind `q`.
  pub record Extends (store store' : List (StatusError D)) (q : ℕ) (e : StatusError D)
      : Type 0 where
    pub made : get_elem? store' q ≡ some e
    pub kept :
        (r : ℕ) (x : StatusError D) → get_elem? store r ≡ some x → get_elem? store' r ≡ some x

  get_elem?_lt :
      (store : List (StatusError D)) (r : ℕ) (x : StatusError D)
      → get_elem? store r ≡ some x
      → r < length store
  get_elem?_lt [] r x h = absurd (ground arith)
  get_elem?_lt (e ∷ store) ℕ.zero x h = omega arith
  get_elem?_lt (e ∷ store) (ℕ.suc r) x h = omega (arith, get_elem?_lt store r x h)

  Extends-with_field :
      (f : StatusError D → StatusError D) (p : ℕ) (store : List (StatusError D)) (e : StatusError D)
      → get_elem? store p ≡ some e
      → (with_field f p store ≡ some (set (store ++ e ∷ []) (length store) (f e), length store))
        × Extends store (set (store ++ e ∷ []) (length store) (f e)) (length store) (f e)
  unfolding with_field clone
  Extends-with_field f p store e h = (
    ground (arith, h, get_elem?-append_end store e),
    record {
      made =
          get_elem?-set_self (store ++ e ∷ []) (length store) (f e)
            (omega (arith, length-append store (e ∷ [])));
      kept = λ r x found.
          get_elem?-set_ne (store ++ e ∷ []) (length store) r (f e)
            (omega (arith, get_elem?_lt store r x found))
          ∙ get_elem?-append_left store (e ∷ []) r (get_elem?_lt store r x found)
          ∙ found;
    },
  )

  Extends-apply_change :
      (c : Change D) (p : ℕ) (store : List (StatusError D)) (e : StatusError D)
      → get_elem? store p ≡ some e
      → (store' : List (StatusError D)) × (q : ℕ) × (apply_change c p store ≡ some (store', q))
        × Extends store store' q (edit c e)
  unfolding apply_change with_custom_message with_custom_code with_error with_data
  Extends-apply_change (custom_message msg) p store e h =
      let (ran, ext) = Extends-with_field (λ e. record e { message = msg }) p store e h in
      (_, _, ran, ext)
  Extends-apply_change (custom_code code) p store e h =
      let (ran, ext) = Extends-with_field (λ e. record e { custom_code = code }) p store e h in
      (_, _, ran, ext)
  Extends-apply_change (error err) p store e h =
      let (ran, ext) = Extends-with_field (λ e. record e { cause = err }) p store e h in
      (_, _, ran, ext)
  Extends-apply_change (payload d) p store e h =
      let (ran, ext) = Extends-with_field (λ e. record e { data_of = d }) p store e h in
      (_, _, ran, ext)

  -- A chain of With* calls on an existing error returns an error with all the changes made, in
  -- their order, and every error that existed, the templates among them, is as it was.
  pub Extends-chain :
      (cs : List (Change D)) (p : ℕ) (store : List (StatusError D)) (e : StatusError D)
      → get_elem? store p ≡ some e
      → (store' : List (StatusError D)) × (q : ℕ) × (chain cs p store ≡ some (store', q))
        × Extends store store' q (edits cs e)
  unfolding chain
  Extends-chain [] p store e h = (store, p, refl, record { made = h; kept = λ r x found. found })
  Extends-chain (c ∷ cs) p store e h =
      let (store₁, q₁, ran, one) = Extends-apply_change c p store e h in
      let (store₂, q₂, rest, more) = Extends-chain cs q₁ store₁ (edit c e) one.made in
      (
        store₂,
        q₂,
        rw (chain, ran) rest,
        record { made = more.made; kept = λ r x found. more.kept r x (one.kept r x found) },
      )
