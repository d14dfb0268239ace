-- ===== src/Copy/Typing/Maps.antt =====
-- The loops over maps, and the fields and entries that are found, keep to the types.
use go_utility.Base.{
  string_eq, String, if◌then◌else◌, ℕ, Bool, false, inl, inr, Bool-cases, Option, none, some, All,
  All-append, List, [], ◌∷◌, ◌++◌, ◌==◌, bytes_eq, arith,
}
use go_utility.Copy.{Ty, Fields, Value, Entries, Record}
use go_utility.Copy.Shape.{HasType, HasEntries, HasFields}
use go_utility.Copy.Std.{Std, Failure, Result, ok, failed, panicked}
use go_utility.Copy.Names.{
  named_fields, field_names, new_names, contains, find_field, field_at, find_entry, folds_to,
}
use go_utility.Copy.Containers.{
  Conversion, or_keep, put_entry, key_text, convert_entries, convert_named, map_convert,
}
use go_utility.Copy.Typing.{IsTyped, Typed, Good}
use go_utility.Copy.Typing.{stored-HasType}
use go_utility.Copy.Leaves.{stored}
use go_utility.Copy.Convert.{of_entry}
use go_utility.Copy.Containers.{from_record, all_exported}

module _ {F T : Type 0} where
  put_entry-HasEntries :
      {t : Ty} (n : String) (k : List ℕ) (v : Value F T) {es : Entries F T}
      → HasType v t
      → HasEntries es (Ty.str n) t
      → HasEntries (put_entry n k v es) (Ty.str n) t
  put_entry-HasEntries n k v h HasEntries.none = HasEntries.entry HasType.str h HasEntries.none
  put_entry-HasEntries n k v h (HasEntries.entry (HasType.str {s = j}) hw hs) =
      elim (Bool-cases (j == k)) [
        | inl same ↦ rw same (HasEntries.entry HasType.str h hs)
        | inr other ↦ rw other (HasEntries.entry HasType.str hw (put_entry-HasEntries n k v h hs))
      ]

  abbrev pub TypedMap : String → Ty → Result (Entries F T) → Type 0
  TypedMap n t (ok es) = HasEntries es (Ty.str n) t
  TypedMap n t (failed es e) = Unit
  TypedMap n t panicked = Unit

  keep-map :
      (n : String) (t : Ty) (dst : Value F T) (r : Result (Entries F T))
      → HasType dst (Ty.map (Ty.str n) t)
      → TypedMap n t r
      → Typed (Ty.map (Ty.str n) t) (or_keep dst (Value.map (Ty.str n) t) (λ e. e) r)
  keep-map n t dst (ok es) hd h = HasType.map h
  keep-map n t dst (failed es e) hd h = hd
  keep-map n t dst panicked hd h = tt

  abbrev IsTypedNamed : List ℕ × Bool × Value F T → Type 0
  IsTypedNamed (k, b, v) = IsTyped v

  new_names-typed :
      (seen ks : List (List ℕ)) (b : Bool) (v : Value F T)
      → IsTyped v
      → All IsTypedNamed (new_names seen ks b v)
  new_names-typed seen [] b v h = tt
  new_names-typed seen (k ∷ ks) b v h = elim (Bool-cases (contains k seen)) [
    | inl old ↦ rw old (new_names-typed (k ∷ seen) ks b v h)
    | inr fresh ↦ rw fresh (h, new_names-typed (k ∷ seen) ks b v h)
  ]

  named_fields-typed :
      (seen : List (List ℕ)) {r : Record F T} {fs : Fields}
      → HasFields r fs
      → All IsTypedNamed (named_fields seen r)
  unfolding named_fields
  named_fields-typed seen HasFields.end = tt
  named_fields-typed seen (HasFields.field {l} {v} {t} {r} h hs) =
      All-append IsTypedNamed (new_names seen (field_names l) l.exported v)
        (named_fields (field_names l ++ seen) r)
        (new_names-typed seen (field_names l) l.exported v (t, h))
        (named_fields-typed (field_names l ++ seen) hs)

  abbrev pub TypedFound : Option (Bool × Value F T) → Type 0
  TypedFound none = Unit
  TypedFound (some (b, v)) = IsTyped v

  found_first :
      (o p : Option (Bool × Value F T))
      → TypedFound o
      → TypedFound p
      → TypedFound (elim o [ none ↦ p | some q ↦ some q ])
  found_first none p ho hp = hp
  found_first (some q) p ho hp = ho

  field_at-TypedFound :
      (k : List ℕ) {r : Record F T} {fs : Fields} → HasFields r fs → TypedFound (field_at k r)
  unfolding field_at
  field_at-TypedFound k HasFields.end = tt
  field_at-TypedFound k (HasFields.field {l} {v} {t} h hs) =
      elim (Bool-cases (contains k (field_names l))) [
        | inl here ↦ rw here (t, h)
        | inr other ↦ rw other (field_at-TypedFound k hs)
      ]

  pub find_field-TypedFound :
      (ks : List (List ℕ)) {r : Record F T} {fs : Fields}
      → HasFields r fs
      → TypedFound (find_field ks r)
  unfolding find_field
  find_field-TypedFound [] h = tt
  find_field-TypedFound (k ∷ ks) {r} h =
      found_first (field_at k r) (find_field ks r) (field_at-TypedFound k h)
        (find_field-TypedFound ks h)

  pub find_entry-TypedFound :
      (fold : List ℕ → List ℕ → Bool) (ks : List (List ℕ)) {es : Entries F T} {k t : Ty}
      → HasEntries es k t
      → TypedFound (of_entry (find_entry fold ks es))
  unfolding find_entry
  find_entry-TypedFound fold ks HasEntries.none = tt
  find_entry-TypedFound fold ks (HasEntries.entry {t} (HasType.str {s = k}) h hs) =
      elim (Bool-cases (folds_to fold k ks)) [
        | inl here ↦ rw here (t, h)
        | inr other ↦ rw other (find_entry-TypedFound fold ks hs)
      ]
  find_entry-TypedFound fold ks (HasEntries.entry hk h hs) = find_entry-TypedFound fold ks hs

  module _ (std : Std F T) where
    entries_step :
        (n : String) (t : Ty) (out : Entries F T) (f : Failure → Failure) (r : Result (Value F T))
        (rest : Value F T → Result (Entries F T))
        → Typed t r
        → ((a : Value F T) → HasType a t → TypedMap n t (rest a))
        → TypedMap n t (elim r [
          | panicked ↦ panicked
          | failed a e ↦ failed out (f e)
          | ok a ↦ if n == "" then rest a else panicked
        ])
    entries_step n t out f (ok a) rest h hs = elim (Bool-cases (n == "")) [
      | inl plain ↦ rw plain (hs a h)
      | inr named ↦ rw named tt
    ]
    entries_step n t out f (failed a e) rest h hs = tt
    entries_step n t out f panicked rest h hs = tt

    convert_entries-TypedMap :
        (n : String) (t : Ty) (conv : Conversion F T) (z : Value F T)
        → Good t conv
        → HasType z t
        → (out : Entries F T) {es : Entries F T} {k u : Ty} → HasEntries out (Ty.str n) t
        → HasEntries es k u
        → TypedMap n t (convert_entries std n conv z out es)
    unfolding convert_entries
    convert_entries-TypedMap n t conv z good hz out ho HasEntries.none = ho
    convert_entries-TypedMap n t conv z good hz out ho
          (HasEntries.entry {t = u} {j} {v} {es} hk h hs) =
        entries_step n t out (Failure.map_key (key_text std j)) (conv false z v)
          (λ a. convert_entries std n conv z (put_entry n (key_text std j) a out) es)
          (good false z v hz (u, h))
          (λ a ha.
            convert_entries-TypedMap n t conv z good hz (put_entry n (key_text std j) a out)
              (put_entry-HasEntries n (key_text std j) a ha ho) hs)

    convert_named-TypedMap :
        (n : String) (t : Ty) (conv : Conversion F T) (z : Value F T)
        → Good t conv
        → HasType z t
        → (out : Entries F T) (xs : List (List ℕ × Bool × Value F T)) → HasEntries out (Ty.str n) t
        → All IsTypedNamed xs
        → TypedMap n t (convert_named std n conv z out xs)
    unfolding convert_named
    convert_named-TypedMap n t conv z good hz out [] ho hx = ho
    convert_named-TypedMap n t conv z good hz out ((k, b, v) ∷ xs) ho hx =
        entries_step n t out (λ e. e) (conv false z (stored Ty.any v))
          (λ a. convert_named std n conv z (put_entry n k a out) xs)
          (good false z (stored Ty.any v) hz (Ty.any, stored-HasType Ty.any v hx.0 (ground arith)))
          (λ a ha.
            convert_named-TypedMap n t conv z good hz (put_entry n k a out) xs
              (put_entry-HasEntries n k a ha ho) hx.1)

    from_record-TypedMap :
        (n : String) (t : Ty) (conv : Conversion F T) (z : Value F T)
        → Good t conv
        → HasType z t
        → {r : Record F T} {fs : Fields} → HasFields r fs
        → TypedMap n t (from_record std n conv z r)
    unfolding from_record
    from_record-TypedMap n t conv z good hz {r} h =
        elim (Bool-cases (all_exported std (named_fields [] r))) [
          | inl all ↦ rw all (
              convert_named-TypedMap n t conv z good hz Entries.none (named_fields [] r)
                HasEntries.none (named_fields-typed [] h))
          | inr some_not ↦ rw some_not tt
        ]

    pub map_convert-Typed :
        (k t : Ty) (conv : Conversion F T) (z dst src : Value F T)
        → Good t conv
        → HasType z t
        → HasType dst (Ty.map k t)
        → IsTyped src
        → Typed (Ty.map k t) (map_convert std k t z conv dst src)
    unfolding map_convert
    map_convert-Typed (Ty.str n) t conv z dst (Value.map j w es) good hz hd (u, HasType.map hs) =
        keep-map n t dst (convert_entries std n conv z Entries.none es) hd
          (convert_entries-TypedMap n t conv z good hz Entries.none HasEntries.none hs)
    map_convert-Typed (Ty.str n) t conv z dst (Value.struct s r) good hz hd (u, HasType.struct hs) =
        keep-map n t dst (from_record std n conv z r) hd
          (from_record-TypedMap n t conv z good hz hs)
    map_convert-Typed (Ty.str n) t conv z dst src good hz hd hs = hd
    map_convert-Typed k t conv z dst src good hz hd hs = hd
