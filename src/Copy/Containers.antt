-- ===== src/Copy/Containers.antt =====
-- The loops of struct.go over slices, arrays and maps, each with the conversion of its elements.
use go_utility.Base.{
  string_eq, String, ℕ, ◌+◌, Bool, true, false, ◌&&◌, List, [], ◌∷◌, ◌==◌, bytes_eq, if◌then◌else◌,
}
use go_utility.Copy.{Ty, Value, Items, Entries, Record}
use go_utility.Copy.Std.{
  Std, Failure, not_an_array, not_a_map, only_string_keys, slice_index, array_index, map_key,
  Result, ok, failed, panicked,
}
use go_utility.Copy.Names.{named_fields}
use go_utility.Copy.Leaves.{stored}

-- A conversion to one type: of a source into what the target holds. `true` tells that the source
-- was read from an unexported field, which `reflect` lets nobody store, call or unpack.
abbrev pub Conversion : Type 0 → Type 0 → Type 0
Conversion F T = Bool → Value F T → Value F T → Result (Value F T)

module _ {A B : Type 0} where
  abbrev pub map_result : (A → B) → Result A → Result B
  map_result f (ok a) = ok (f a)
  map_result f (failed a e) = failed (f a) e
  map_result f panicked = panicked

  -- What a failure leaves of a target that is written only at the end.
  abbrev pub or_keep : B → (A → B) → (Failure → Failure) → Result A → Result B
  or_keep b f g (ok a) = ok (f a)
  or_keep b f g (failed a e) = failed b (g e)
  or_keep b f g panicked = panicked

module _ {F T : Type 0} where
  -- The loop of `sliceConvert`, from an index on; `z` is the zero of the elements.
  unfoldable pub convert_items : Conversion F T → Value F T → ℕ → Items F T → Result (Items F T)
  convert_items conv z i Items.nil = ok Items.nil
  convert_items conv z i (Items.cons v vs) =
      let rest = convert_items conv z (i + 1) vs in
      elim (conv false z v) [
        | panicked ↦ panicked
        | failed a e ↦ failed Items.nil (slice_index i e)
        | ok a ↦ map_result (Items.cons a) rest
      ]

  unfoldable pub slice_convert :
      Ty → Value F T → Conversion F T → Value F T → Value F T → Result (Value F T)
  unfolding convert_items
  slice_convert t z conv dst (Value.slice u vs) =
      or_keep dst (Value.slice t) (λ e. e) (convert_items conv z 0 vs)
  slice_convert t z conv dst (Value.array u vs) =
      or_keep dst (Value.slice t) (λ e. e) (convert_items conv z 0 vs)
  slice_convert t z conv dst src =
      or_keep dst (λ v. Value.slice t (Items.cons v Items.nil)) (λ e. e) (conv false z src)

  -- The loop of `arrayConvert`: it writes into the target's elements, and leaves the rest.
  unfoldable pub fill_items : Conversion F T → ℕ → Items F T → Items F T → Result (Items F T)
  fill_items conv i Items.nil vs = ok Items.nil
  fill_items conv i (Items.cons d ds) Items.nil = ok (Items.cons d ds)
  fill_items conv i (Items.cons d ds) (Items.cons v vs) =
      let rest = fill_items conv (i + 1) ds vs in
      elim (conv false d v) [
        | panicked ↦ panicked
        | failed a e ↦ failed (Items.cons a ds) (array_index i e)
        | ok a ↦ map_result (Items.cons a) rest
      ]

  array_from : Conversion F T → Value F T → Items F T → Result (Value F T)
  unfolding fill_items
  array_from conv (Value.array t ds) vs = map_result (Value.array t) (fill_items conv 0 ds vs)
  array_from conv dst vs = panicked

  unfoldable pub array_convert : Conversion F T → Value F T → Value F T → Result (Value F T)
  unfolding array_from
  array_convert conv dst (Value.slice u vs) = array_from conv dst vs
  array_convert conv dst (Value.array u vs) = array_from conv dst vs
  array_convert conv dst src = failed dst not_an_array

  -- `SetMapIndex` with a string, for keys of type `string`, whose name is empty.
  abbrev pub put_entry : String → List ℕ → Value F T → Entries F T → Entries F T
  put_entry n k v Entries.none = Entries.entry (Value.str n k) v Entries.none
  put_entry n k v (Entries.entry (Value.str m j) w es) =
      let rest = put_entry n k v es in
      if j == k then Entries.entry (Value.str n k) v es else Entries.entry (Value.str m j) w rest
  put_entry n k v (Entries.entry j w es) = Entries.entry j w (put_entry n k v es)

  module _ (std : Std F T) where
    abbrev pub key_text : Value F T → List ℕ
    key_text (Value.str n k) = k
    key_text v = std.sprint v

    -- The loop of `mapConvert` over a map, in the order of its iteration.
    unfoldable pub convert_entries :
        String → Conversion F T → Value F T → Entries F T → Entries F T → Result (Entries F T)
    convert_entries n conv z out Entries.none = ok out
    convert_entries n conv z out (Entries.entry k v es) = elim (conv false z v) [
      | panicked ↦ panicked
      | failed a e ↦ failed out (map_key (key_text k) e)
      | ok a ↦
          let rest = convert_entries n conv z (put_entry n (key_text k) a out) es in
          if n == "" then rest else panicked
    ]

    -- The map that `structToStringMap` makes has `any` for its elements; storing an unexported
    -- field there panics.
    abbrev as_any : Value F T → Value F T
    as_any v = stored Ty.any v

    abbrev pub all_exported : List (List ℕ × Bool × Value F T) → Bool
    all_exported [] = true
    all_exported ((k, b, v) ∷ xs) = b && all_exported xs

    -- The loop of `mapConvert` over that map.
    unfoldable pub convert_named :
        String
        → Conversion F T
        → Value F T
        → Entries F T
        → List (List ℕ × Bool × Value F T)
        → Result (Entries F T)
    convert_named n conv z out [] = ok out
    convert_named n conv z out ((k, b, v) ∷ xs) = elim (conv false z (as_any v)) [
      | panicked ↦ panicked
      | failed a e ↦ failed out e
      | ok a ↦
          let rest = convert_named n conv z (put_entry n k a out) xs in
          if n == "" then rest else panicked
    ]

    unfoldable pub from_record :
        String → Conversion F T → Value F T → Record F T → Result (Entries F T)
    unfolding convert_named
    from_record n conv z r =
        if all_exported (named_fields [] r)
        then convert_named n conv z Entries.none (named_fields [] r)
        else panicked

    unfoldable pub map_convert :
        Ty → Ty → Value F T → Conversion F T → Value F T → Value F T → Result (Value F T)
    unfolding convert_entries from_record
    map_convert (Ty.str n) t z conv dst (Value.map j u es) =
        or_keep dst (Value.map (Ty.str n) t) (λ e. e) (convert_entries n conv z Entries.none es)
    map_convert (Ty.str n) t z conv dst (Value.struct s r) =
        or_keep dst (Value.map (Ty.str n) t) (λ e. e) (from_record n conv z r)
    map_convert (Ty.str n) t z conv dst src = failed dst not_a_map
    map_convert k t z conv dst src = failed dst only_string_keys
