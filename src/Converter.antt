-- ===== src/Converter.antt =====
-- utils/converter/converter.go: rows of a database put into Go values by reflection. A panic is `none`.
pub mod Fields
pub mod Rows
mod Tests
use go_utility.Base.{
  ℕ, String, Bool, true, false, ◌==◌, string_eq, Option, none, some, List, [], ◌∷◌, ◌++◌, map,
  if◌then◌else◌,
}

-- What is used of reflect, for the types `T` and the values `V` of Go: the type of a value, what may be
-- assigned and converted to what, the conversion, which may panic, what a place of a type holds once a
-- value was assigned to it, the element of a pointer type, a new pointer, and zero values.
pub record Reflect (T V : Type 0) : Type 0 where
  pub type_of : V → T
  pub assignable : T → T → Bool
  pub convertible : T → T → Bool
  pub convert : T → V → Option V
  pub stored : T → V → V
  pub elem_of : T → Option T
  pub pointer : V → V
  pub zero : T → V

-- A field of a struct: its tags, its type, whether it can be set, and its value.
pub record Field (T V : Type 0) : Type 0 where
  pub tags : List (String × String)
  pub ty : T
  pub can_set : Bool
  pub value : V

-- A row as `pgx.RowToMap` gives it, in the order of one iteration; `none` is nil.
abbrev pub Row : Type 0 → Type 0
Row V = List (String × Option V)

abbrev pub find {ℓ} : {A : Type ℓ} → String → List (String × A) → Option A
find key [] = none
find key ((k, a) ∷ entries) = let rest = find key entries in if key == k then some a else rest

-- `Tag.Get`: the empty text where there is no such tag.
abbrev pub tag_value : String → List (String × String) → String
tag_value tag tags = elim (find tag tags) [ none ↦ "" | some v ↦ v ]

module _ {T V : Type 0} (r : Reflect T V) where
  -- `place.Set(val)` for a place of a type.
  abbrev pub set : T → Bool → V → Option V
  set t can_set v =
      if can_set then (if r.assignable (r.type_of v) t then some (r.stored t v) else none) else none

  -- What a new pointer's element becomes: the value, the converted value, or it stays zero.
  unfoldable pub element : T → V → Option V
  element t v =
      if r.assignable (r.type_of v) t
      then some (r.stored t v)
      else (if r.convertible (r.type_of v) t then r.convert t v else some (r.zero t))

  -- A field that is a pointer: a pointer is assigned as it is, and another value behind a new pointer.
  unfoldable pub set_pointer : Field T V → T → V → Option V
  unfolding element
  set_pointer f t v = elim (r.elem_of (r.type_of v)) [
    | some t' ↦ set f.ty f.can_set v
    | none ↦ elim (element t v) [ none ↦ none | some inner ↦ set f.ty f.can_set (r.pointer inner) ]
  ]

  -- A field that is none.
  unfoldable pub set_plain : Field T V → V → Option V
  set_plain f v =
      if r.assignable (r.type_of v) f.ty
      then set f.ty f.can_set v
      else (if r.convertible (r.type_of v) f.ty
          then (elim (r.convert f.ty v) [ none ↦ none | some v' ↦ set f.ty f.can_set v' ])
          else some f.value)

  unfoldable pub set_field : Field T V → V → Option V
  unfolding set_pointer set_plain
  set_field f v = elim (r.elem_of f.ty) [ some t ↦ set_pointer f t v | none ↦ set_plain f v ]

  -- The body of the loop over the fields.
  unfoldable pub fill : Row V → String → Field T V → Option (Field T V)
  unfolding set_field
  fill row tag f = elim (find (tag_value tag f.tags) row) [
    | none ↦ some f
    | some none ↦ some f
    | some (some v) ↦ elim (set_field f v) [
      | none ↦ none
      | some v' ↦ some (record { tags = f.tags; ty = f.ty; can_set = f.can_set; value = v' })
    ]
  ]

  -- `MapToReflectValue` of a struct.
  unfoldable pub map_to_struct : Row V → String → List (Field T V) → Option (List (Field T V))
  unfolding fill
  map_to_struct row tag [] = some []
  map_to_struct row tag (f ∷ fs) =
      let rest = map_to_struct row tag fs in
      elim (fill row tag f) [
        | none ↦ none
        | some f' ↦ elim rest [ none ↦ none | some fs' ↦ some (f' ∷ fs') ]
      ]

  -- `MapToReflectValue` of another value: each value of the row in turn. A nil has no `reflect.Value`.
  unfoldable pub map_to_plain : Row V → T → V → Option V
  map_to_plain [] t v = some v
  map_to_plain ((k, none) ∷ row) t v = none
  map_to_plain ((k, some v') ∷ row) t v = elim (set t true v') [
    | none ↦ none
    | some v'' ↦ map_to_plain row t v''
  ]

-- A value that a row is put into: a struct, or a value of another type.
pub data Element (T V : Type 0) : Type 0 where
  struct : List (Field T V) → Element T V
  plain : T → V → Element T V

module _ {T V : Type 0} (r : Reflect T V) where
  -- `MapToReflectValue`
  unfoldable pub map_to_reflect_value : Row V → String → Element T V → Option (Element T V)
  unfolding map_to_struct map_to_plain
  map_to_reflect_value row tag (struct fs) = elim (map_to_struct r row tag fs) [
    | none ↦ none
    | some fs' ↦ some (struct fs')
  ]
  map_to_reflect_value row tag (plain t v) = elim (map_to_plain r row t v) [
    | none ↦ none
    | some v' ↦ some (plain t v')
  ]

-- A row, or the error of `RowToMap`; and the errors of `ConvertRows`.
pub data Fetched (V E : Type 0) : Type 0 where
  row : Row V → Fetched V E
  unreadable : E → Fetched V E

pub data Failure (E : Type 0) : Type 0 where
  no_rows : Failure E
  failure : E → Failure E

-- What is behind the pointer `result`: a slice with the zero value of its elements, an array, a map, a
-- struct, or something else.
pub data Target (T V : Type 0) : Type 0 where
  slice : Element T V → List (Element T V) → Target T V
  array : Target T V
  map_target : Row V → Target T V
  single : List (Field T V) → Target T V
  scalar : V → Target T V

-- The outcome: what `result` points to, the error, and whether the rows were closed.
abbrev pub Outcome : Type 0 → Type 0 → Type 0 → Type 0
Outcome T V E = Option (Target T V × Option (Failure E) × Bool)

module _ {T V E : Type 0} (r : Reflect T V) (tag : String) where
  -- The loop for a slice.
  unfoldable pub append_rows : Element T V → List (Fetched V E) → List (Element T V) → Outcome T V E
  unfolding map_to_reflect_value
  append_rows zero [] slc = some (slice zero slc, none, true)
  append_rows zero (unreadable e ∷ rows) slc = some (slice zero slc, some (failure e), false)
  append_rows zero (row m ∷ rows) slc = elim (map_to_reflect_value r m tag zero) [
    | none ↦ none
    | some new ↦ append_rows zero rows (slc ++ new ∷ [])
  ]

  -- `ConvertRows`; `scan` is what the driver's `Scan` of a row makes of the value, with its error. The
  -- row is assigned to the parameter `result` for a map, which the caller does not see; `reflect.Append`
  -- to an array panics.
  unfoldable pub convert_rows :
      (Fetched V E → V → V × Option E) → List (Fetched V E) → Target T V → Outcome T V E
  unfolding append_rows map_to_struct
  convert_rows scan rows (slice zero slc) = append_rows zero rows slc
  convert_rows scan [] array = some (array, none, true)
  convert_rows scan (unreadable e ∷ rows) array = some (array, some (failure e), false)
  convert_rows scan (row m ∷ rows) array = none
  convert_rows scan [] (map_target old) = some (map_target old, some no_rows, true)
  convert_rows scan (unreadable e ∷ rows) (map_target old) =
      some (map_target old, some (failure e), true)
  convert_rows scan (row m ∷ rows) (map_target old) = some (map_target old, none, true)
  convert_rows scan [] (single fs) = some (single fs, some no_rows, true)
  convert_rows scan (unreadable e ∷ rows) (single fs) = some (single fs, some (failure e), true)
  convert_rows scan (row m ∷ rows) (single fs) = elim (map_to_struct r m tag fs) [
    | none ↦ none
    | some fs' ↦ some (single fs', none, true)
  ]
  convert_rows scan [] (scalar v) = some (scalar v, some no_rows, false)
  convert_rows scan (f ∷ rows) (scalar v) =
      let (v', err) = scan f v in
      elim err [
        | none ↦ some (scalar v', none, false)
        | some e ↦ some (scalar v', some (failure e), false)
      ]
