-- ===== src/Converter/Fields.antt =====
-- converter.go: the fields of a struct that a row was put into.
use go_utility.Base.{
  String, ◌≡◌, ◌==◌, string_eq, refl, true, false, subst, Option, none, some, Option-cases,
  Bool-cases, inl, inr, List, [], ◌∷◌, All, arith,
}
use go_utility.Converter.{
  Reflect, Field, Row, find, tag_value, element, set_pointer, set_plain, set_field, fill,
  map_to_struct,
}

-- What Go guarantees of these operations: a place keeps its type, a conversion that does not panic gives
-- a value of its type, which can be assigned to it, and so can a pointer to an element of a pointer's type.
pub record IsGo {T V : Type 0} (r : Reflect T V) : Type 0 where
  pub stored_type :
      (t : T) (v : V) → r.assignable (r.type_of v) t ≡ true → r.type_of (r.stored t v) ≡ t
  pub converts :
      (t : T) (v w : V)
      → r.convert t v ≡ some w
      → (r.assignable (r.type_of w) t ≡ true) × (r.type_of w ≡ t)
  pub zero_type : (t : T) → r.type_of (r.zero t) ≡ t
  pub points :
      (t u : T) (v : V)
      → r.elem_of t ≡ some u
      → r.type_of v ≡ u
      → r.assignable (r.type_of (r.pointer v)) t ≡ true

-- A field that can be set and has the type that it is declared with.
abbrev pub IsFine : {T V : Type 0} → Reflect T V → Field T V → Type 0
IsFine r f = (f.can_set ≡ true) × (r.type_of f.value ≡ f.ty)

-- A value of a row: nil, or no pointer and one whose conversions do not panic, as those of a slice to a
-- longer array do.
abbrev pub IsPlain : {T V : Type 0} → Reflect T V → String × Option V → Type 0
IsPlain {T = T} {V = V} r (k, none) = Unit
IsPlain {T = T} {V = V} r (k, some v) =
    (r.elem_of (r.type_of v) ≡ none)
    × ((t : T) → r.convertible (r.type_of v) t ≡ true → (w : V) × (r.convert t v ≡ some w))

-- A value for an element of a type: the value, the converted one, or zero where there is no conversion.
pub data Inner {T V : Type 0} (r : Reflect T V) (t : T) (v : V) : V → Type 0 where
  kept : r.assignable (r.type_of v) t ≡ true → Inner r t v (r.stored t v)
  made :
      {w : V}
      → r.assignable (r.type_of v) t ≡ false
      → r.convertible (r.type_of v) t ≡ true
      → r.convert t v ≡ some w
      → Inner r t v w
  zeroed :
      r.assignable (r.type_of v) t ≡ false
      → r.convertible (r.type_of v) t ≡ false
      → Inner r t v (r.zero t)

-- A value for a field, which is one behind a new pointer for a field that is a pointer. Another field
-- keeps its value where there is no conversion.
pub data Puts {T V : Type 0} (r : Reflect T V) (f : Field T V) (v : V) : V → Type 0 where
  assigned :
      r.elem_of f.ty ≡ none → r.assignable (r.type_of v) f.ty ≡ true → Puts r f v (r.stored f.ty v)
  converted :
      {w : V}
      → r.elem_of f.ty ≡ none
      → r.assignable (r.type_of v) f.ty ≡ false
      → r.convertible (r.type_of v) f.ty ≡ true
      → r.convert f.ty v ≡ some w
      → Puts r f v (r.stored f.ty w)
  left :
      r.elem_of f.ty ≡ none
      → r.assignable (r.type_of v) f.ty ≡ false
      → r.convertible (r.type_of v) f.ty ≡ false
      → Puts r f v f.value
  behind :
      {t : T} {w : V}
      → r.elem_of f.ty ≡ some t
      → Inner r t v w
      → Puts r f v (r.stored f.ty (r.pointer w))

module _ {T V : Type 0} (r : Reflect T V) (go : IsGo r) where
  element-Inner :
      (t : T) (v : V)
      → ((u : T) → r.convertible (r.type_of v) u ≡ true → (w : V) × (r.convert u v ≡ some w))
      → (w : V) × (element r t v ≡ some w) × (r.type_of w ≡ t) × Inner r t v w
  unfolding element
  element-Inner t v safe = elim (Bool-cases (r.assignable (r.type_of v) t)) [
    | inl can ↦ (r.stored t v, rw (element, can) refl, go.stored_type t v can, kept can)
    | inr cannot ↦ elim (Bool-cases (r.convertible (r.type_of v) t)) [
      | inl converts ↦
          let (w, done) = safe t converts in
          (
            w,
            rw (element, cannot, converts) done,
            (go.converts t v w done).1,
            made cannot converts done,
          )
      | inr not ↦ (r.zero t, rw (element, cannot, not) refl, go.zero_type t, zeroed cannot not)
    ]
  ]

  -- A write succeeds, with a value of the field's type.
  Sets : Field T V → V → Option V → Type 0
  Sets f v o = (v' : V) × (o ≡ some v') × (r.type_of v' ≡ f.ty) × Puts r f v v'

  set_plain-Sets :
      (f : Field T V) (k : String) (v : V)
      → IsFine r f
      → IsPlain r (k, some v)
      → r.elem_of f.ty ≡ none
      → Sets f v (set_plain r f v)
  unfolding Sets set_plain
  set_plain-Sets f k v (can, typed) (no_pointer, safe) target =
      elim (Bool-cases (r.assignable (r.type_of v) f.ty)) [
        | inl fits ↦ (
          r.stored f.ty v,
          rw (set_plain, fits, can) refl,
          go.stored_type f.ty v fits,
          assigned target fits,
        )
        | inr unfit ↦ elim (Bool-cases (r.convertible (r.type_of v) f.ty)) [
          | inl converts ↦
              let (w, done) = safe f.ty converts in
              let fits = (go.converts f.ty v w done).0 in
              (
                r.stored f.ty w,
                rw (set_plain, unfit, converts, done, can, fits) refl,
                go.stored_type f.ty w fits,
                converted target unfit converts done,
              )
          | inr not ↦ (f.value, rw (set_plain, unfit, not) refl, typed, left target unfit not)
        ]
      ]

  set_pointer-Sets :
      (f : Field T V) (t : T) (k : String) (v : V)
      → IsFine r f
      → IsPlain r (k, some v)
      → r.elem_of f.ty ≡ some t
      → Sets f v (set_pointer r f t v)
  unfolding Sets set_pointer
  set_pointer-Sets f t k v (can, typed) (no_pointer, safe) pointer =
      let (inner, done, it, how) = element-Inner t v safe in
      let fits = go.points f.ty t inner pointer it in
      (
        r.stored f.ty (r.pointer inner),
        rw (set_pointer, no_pointer, done, can, fits) refl,
        go.stored_type f.ty (r.pointer inner) fits,
        behind pointer how,
      )

  set_field-Sets :
      (f : Field T V) (k : String) (v : V)
      → IsFine r f
      → IsPlain r (k, some v)
      → Sets f v (set_field r f v)
  unfolding set_field
  set_field-Sets f k v fine plain = elim (Option-cases (r.elem_of f.ty)) [
    | inl no_pointer ↦ rw (set_field, no_pointer) (set_plain-Sets f k v fine plain no_pointer)
    | inr (t, pointer) ↦ rw (set_field, pointer) (set_pointer-Sets f t k v fine plain pointer)
  ]

  -- What a row finds for a field: nothing or nil leaves its value.
  abbrev pub Keeps : Option (Option V) → Field T V → Field T V → Type 0
  Keeps (some (some v)) f f' = Puts r f v f'.value
  Keeps _ f f' = f'.value ≡ f.value

  -- A field before and after: the same field, with a value of its type that comes from its column.
  abbrev pub Filled : Row V → String → Field T V → Field T V → Type 0
  Filled row tag f f' =
      (f'.tags ≡ f.tags)
      × (f'.ty ≡ f.ty)
      × IsFine r f'
      × Keeps (find (tag_value tag f.tags) row) f f'

  find-IsPlain :
      (key : String) (row : Row V) (v : V)
      → All (IsPlain r) row
      → find key row ≡ some (some v)
      → IsPlain r (key, some v)
  find-IsPlain key [] v h e = absurd (ground arith)
  find-IsPlain key ((k, none) ∷ row) v (here, h) e = elim (Bool-cases (key == k)) [
    | inl same ↦ absurd (ground arith)
    | inr other ↦ find-IsPlain key row v h (rw other at e)
  ]
  find-IsPlain key ((k, some v') ∷ row) v (here, h) e = elim (Bool-cases (key == k)) [
    | inl same ↦
        let found : v' ≡ v = ground arith in subst (λ u. IsPlain r (key, some u)) found here
    | inr other ↦ find-IsPlain key row v h (rw other at e)
  ]

  fill-Filled :
      (row : Row V) (tag : String) (f : Field T V) (o : Option (Option V))
      → All (IsPlain r) row
      → IsFine r f
      → find (tag_value tag f.tags) row ≡ o
      → (f' : Field T V) × (fill r row tag f ≡ some f')
        × (f'.tags ≡ f.tags)
        × (f'.ty ≡ f.ty)
        × IsFine r f'
        × Keeps o f f'
  unfolding fill Sets
  fill-Filled row tag f none plain fine e = (f, rw (fill, e) refl, refl, refl, fine, refl)
  fill-Filled row tag f (some none) plain fine e = (f, rw (fill, e) refl, refl, refl, fine, refl)
  fill-Filled row tag f (some (some v)) plain fine e =
      let (v', done, typed, how) =
        set_field-Sets f (tag_value tag f.tags) v fine
          (find-IsPlain (tag_value tag f.tags) row v plain e) in
      (
        record { tags = f.tags; ty = f.ty; can_set = f.can_set; value = v' },
        rw (fill, e, done) refl,
        refl,
        refl,
        (fine.0, typed),
        how,
      )

  -- Field by field, what a row makes of the fields of a struct.
  abbrev pub AllFilled : Row V → String → List (Field T V) → List (Field T V) → Type 0
  AllFilled row tag [] [] = Unit
  AllFilled row tag (f ∷ fs) (f' ∷ fs') = Filled row tag f f' × AllFilled row tag fs fs'
  AllFilled row tag _ _ = ⊥

  -- `MapToReflectValue` of a struct whose fields can be set does not panic on a row of plain values:
  -- each field has its tags and type and a value of that type, which is the one from before where the
  -- row has no column of its tag, or a nil, and else that column's.
  pub map_to_struct-AllFilled :
      (row : Row V) (tag : String) (fs : List (Field T V))
      → All (IsPlain r) row
      → All (IsFine r) fs
      → (fs' : List (Field T V)) × (map_to_struct r row tag fs ≡ some fs')
        × AllFilled row tag fs fs'
  unfolding map_to_struct
  map_to_struct-AllFilled row tag [] plain fine = ([], refl, tt)
  map_to_struct-AllFilled row tag (f ∷ fs) plain (here, fine) =
      let (f', filled, tags, ty, typed, keeps) =
        fill-Filled row tag f (find (tag_value tag f.tags) row) plain here refl in
      let (fs', rest, all) = map_to_struct-AllFilled row tag fs plain fine in
      (f' ∷ fs', rw (map_to_struct, filled, rest) refl, ((tags, ty, typed, keeps), all))
