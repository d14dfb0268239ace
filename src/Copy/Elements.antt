-- ===== src/Copy/Elements.antt =====
-- struct.go: the elements of a converted slice, and the fields that a tag without a name confuses.
use go_utility.Base.{ℕ, ◌+◌, false, ◌≡◌, refl, ◌⊎◌, inl, inr, some, List, [], ◌∷◌, bytes_eq}
use go_utility.Copy.{Label, Ty, Value, Items, Record}
use go_utility.Copy.Std.{Failure, slice_index, Result, ok, failed, panicked}
use go_utility.Copy.Names.{tag_head, lower_first, field_names, field_at, find_field}
use go_utility.Copy.Containers.{Conversion, map_result, or_keep, convert_items, slice_convert}

module _ {F T : Type 0} (conv : Conversion F T) (z : Value F T) where
  -- Each element is the conversion of the one at its place.
  abbrev pub Pointwise : Items F T → Items F T → Type 0
  Pointwise Items.nil Items.nil = Unit
  Pointwise (Items.cons v vs) (Items.cons w ws) = (conv false z v ≡ ok w) × Pointwise vs ws
  Pointwise _ _ = ⊥

  -- The first element that is not converted fails, and the error names its index.
  pub data FirstFailure : ℕ → Items F T → Failure → Type 0 where
    fails :
        {i : ℕ} {v a : Value F T} {vs : Items F T} {e : Failure}
        → conv false z v ≡ failed a e
        → FirstFailure i (Items.cons v vs) (slice_index i e)
    later :
        {i : ℕ} {v w : Value F T} {vs : Items F T} {e : Failure}
        → conv false z v ≡ ok w
        → FirstFailure (i + 1) vs e
        → FirstFailure i (Items.cons v vs) e

  pub data FirstPanic : Items F T → Type 0 where
    panics :
        {v : Value F T} {vs : Items F T} → conv false z v ≡ panicked → FirstPanic (Items.cons v vs)
    later :
        {v w : Value F T} {vs : Items F T}
        → conv false z v ≡ ok w
        → FirstPanic vs
        → FirstPanic (Items.cons v vs)

  abbrev Outcome : ℕ → Items F T → Result (Items F T) → Type 0
  Outcome i vs (ok ws) = Pointwise vs ws
  Outcome i vs (failed ws e) = FirstFailure i vs e
  Outcome i vs panicked = FirstPanic vs

  outcome_step :
      (i : ℕ) (v : Value F T) (vs : Items F T) (r : Result (Value F T)) (rest : Result (Items F T))
      → conv false z v ≡ r
      → Outcome (i + 1) vs rest
      → Outcome i (Items.cons v vs) (elim r [
        | panicked ↦ panicked
        | failed a e ↦ failed Items.nil (slice_index i e)
        | ok a ↦ map_result (Items.cons a) rest
      ])
  outcome_step i v vs (ok a) (ok ws) h hs = (h, hs)
  outcome_step i v vs (ok a) (failed ws e) h hs = FirstFailure.later h hs
  outcome_step i v vs (ok a) panicked h hs = FirstPanic.later h hs
  outcome_step i v vs (failed a e) rest h hs = FirstFailure.fails h
  outcome_step i v vs panicked rest h hs = FirstPanic.panics h

  convert_items-Outcome : (i : ℕ) (vs : Items F T) → Outcome i vs (convert_items conv z i vs)
  unfolding convert_items
  convert_items-Outcome i Items.nil = tt
  convert_items-Outcome i (Items.cons v vs) =
      outcome_step i v vs (conv false z v) (convert_items conv z (i + 1) vs) refl
        (convert_items-Outcome (i + 1) vs)

  after_loop :
      (t : Ty) (dst : Value F T) (vs : Items F T) (r : Result (Items F T))
      → Outcome 0 vs r
      → ((ws : Items F T) × (or_keep dst (Value.slice t) (λ e. e) r ≡ ok (Value.slice t ws))
          × Pointwise vs ws)
        ⊎ ((e : Failure) × (or_keep dst (Value.slice t) (λ e. e) r ≡ failed dst e)
            × FirstFailure 0 vs e)
        ⊎ ((or_keep dst (Value.slice t) (λ e. e) r ≡ panicked) × FirstPanic vs)
  after_loop t dst vs (ok ws) h = inl (ws, refl, h)
  after_loop t dst vs (failed ws e) h = inr (inl (e, refl, h))
  after_loop t dst vs panicked h = inr (inr (refl, h))

  -- A slice converted to a slice has the conversions of its elements, in their order and as many;
  -- or the first element whose conversion fails is named in the error, and the target is as it
  -- was; or the first that does not succeed panics.
  pub slice_convert_lem :
      (t u : Ty) (dst : Value F T) (vs : Items F T)
      → ((ws : Items F T) × (slice_convert t z conv dst (Value.slice u vs) ≡ ok (Value.slice t ws))
          × Pointwise vs ws)
        ⊎ ((e : Failure) × (slice_convert t z conv dst (Value.slice u vs) ≡ failed dst e)
            × FirstFailure 0 vs e)
        ⊎ ((slice_convert t z conv dst (Value.slice u vs) ≡ panicked) × FirstPanic vs)
  unfolding slice_convert
  slice_convert_lem t u dst vs =
      after_loop t dst vs (convert_items conv z 0 vs) (convert_items-Outcome 0 vs)

empty_name :
    (l : Label) (rest : List ℕ)
    → l.db ≡ []
    → l.json ≡ b',' ∷ rest
    → field_names l ≡ [] ∷ l.name ∷ lower_first l.name ∷ []
unfolding field_names tag_head
empty_name l rest d j = rw (field_names, d, j) refl

-- A JSON tag that gives options and no name, as `,omitempty` does, counts as an empty name: when
-- the first field of the source and a field of the target both have one, the target's field takes
-- that first field, whatever the two are called.
pub find_field-omitempty :
    {F T : Type 0} (l l₀ : Label) (rest rest₀ : List ℕ) (v : Value F T) (r : Record F T)
    → l.db ≡ []
    → l.json ≡ b',' ∷ rest
    → l₀.db ≡ []
    → l₀.json ≡ b',' ∷ rest₀
    → find_field (field_names l) (Record.field l₀ v r) ≡ some (l₀.exported, v)
unfolding find_field field_at
find_field-omitempty l l₀ rest rest₀ v r d j d₀ j₀ =
    rw (empty_name l rest d j, find_field, empty_name l₀ rest₀ d₀ j₀) refl
