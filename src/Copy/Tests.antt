-- ===== src/Copy/Tests.antt =====
-- Runs of struct.go over a library whose floats and times are integers, and an example of each
-- result about it.
use go_utility.Base.{ℕ, true, false, ◌≡◌, refl, ◌⊎◌, none, some, List, [], arith, ◌==◌, bytes_eq}
use go_utility.Base.Int.{ℤ, pos, negsuc, ltb_ℤ, pos_part}
use go_utility.Base.Text.{codes}
use go_utility.Copy.{int, int8, int64, Label, Ty, Fields, Value, Items, Entries, Record}
use go_utility.Copy.Shape.{type_of, same_type}
use go_utility.Copy.Leaves.{wrap}
use go_utility.Copy.Std.{Std, refused, Failure, no_rule, in_field, ok, failed, panicked}
use go_utility.Copy.Containers.{Conversion, slice_convert}
use go_utility.Copy.Names.{by_name}
use go_utility.Copy.Convert.{convert, copy, deref}
use go_utility.Copy.Numbers.{IsExact, convert_integer}
use go_utility.Copy.Elements.{Pointwise, FirstFailure, FirstPanic, slice_convert_lem}

abbrev plain : Std ℤ ℤ
plain = record {
  zero_float = pos 0;
  of_int = λ z. z;
  of_uint = λ n. pos n;
  to_int = λ z. z;
  to_uint = λ z. pos_part z;
  is_negative = λ z. ltb_ℤ z (pos 0);
  is_nonzero = λ z. true;
  round32 = λ z. z;
  parse_float = λ s. none;
  parse_int = λ s. none;
  parse_bool = λ s. none;
  trim_space = λ s. s;
  equal_fold = λ s t. s == t;
  sprint = λ v. [];
  zero_time = pos 0;
  parse_time = λ s. none;
  from_unix = λ z. z;
  unix = λ z. z;
  format = λ t. [];
  date = λ y m d. y;
  unmarshal = λ t raw. none;
  has_assign_to = λ v. false;
  assign_to = λ v t. refused;
  assign_text = λ v. none;
}

abbrev label : List ℕ → List ℕ → Label
label name json = record { name = name; db = []; json = json; exported = true; embedded = false }

-- A row with two fields, and the fields of two structs to copy it to.
abbrev row : Value ℤ ℤ
row = Value.struct "row" (
    Record.field (label (codes "Id") (codes "id")) (Value.integer int (pos 7))
      (Record.field (label (codes "Name") []) (Value.str "" (codes "ann")) Record.end))

abbrev target_fields : Fields
target_fields = Fields.field (label (codes "UserId") (codes "id,string")) (Ty.integer int64) (
    Fields.field (label (codes "Name") []) (Ty.str "")
      (Fields.field (label (codes "Note") []) (Ty.str "") Fields.end))

abbrev target : ℤ → List ℕ → Value ℤ ℤ
target id name = Value.struct "target" (
    Record.field (label (codes "UserId") (codes "id,string")) (Value.integer int64 id) (
      Record.field (label (codes "Name") []) (Value.str "" name)
        (Record.field (label (codes "Note") []) (Value.str "" (codes "kept")) Record.end)))

-- The first field is found by its tag, the second by its name; the third has no source.
copied :
    copy plain (some (Value.ptr (target (pos 0) []))) (some (Value.ptr row))
    ≡ ok (some (Value.ptr (target (pos 7) (codes "ann"))))
unfolding copy type_of same_type wrap
copied = refl

plain-IsExact : IsExact plain
plain-IsExact = record { keeps = λ z lo hi. refl; no_method = λ k z. refl }

convert_integer_example :
    convert plain
      (Ty.integer int8)
      false
      (Value.integer int8 (pos 0))
      (Value.ptr (Value.integer int64 (negsuc 99)))
    ≡ ok (Value.integer int8 (negsuc 99))
convert_integer_example =
    convert_integer plain plain-IsExact int64 int8 (negsuc 99) (Value.integer int8 (pos 0))
      (Value.ptr (Value.integer int64 (negsuc 99))) (unfold deref in refl) (omega arith)
      (omega arith) (omega arith, omega arith)

-- A struct around a null value is null, since `FieldByName` finds the field inside it.
embedded_null :
    convert plain (Ty.ptr Ty.bool) false (Value.nil_ptr Ty.bool) (
      Value.struct "wrapper" (
        Record.field
          (record { name = codes "Text"; db = []; json = []; exported = true; embedded = true })
          (Value.struct "pgtype.Text"
            (Record.field (label (codes "Valid") []) (Value.bool false) Record.end))
          Record.end))
    ≡ ok (Value.nil_ptr Ty.bool)
unfolding convert by_name
embedded_null = refl

-- A map whose keys have a named string type panics at the first entry.
named_keys :
    convert plain
      (Ty.map (Ty.str "Role") Ty.bool)
      false
      (Value.map (Ty.str "Role") Ty.bool Entries.none)
      (Value.map
        (Ty.str "")
        Ty.bool
        (Entries.entry (Value.str "" (codes "id")) (Value.bool true) Entries.none))
    ≡ panicked
unfolding convert type_of same_type
named_keys = refl

-- A `map[string]any` does not fill a struct with a number.
map_to_struct :
    convert plain (Ty.struct "target" target_fields) false (target (pos 0) []) (
      Value.map (Ty.str "") Ty.any (
        Entries.entry
          (Value.str "" (codes "id"))
          (Value.any (Value.integer int (pos 3)))
          Entries.none))
    ≡ failed (target (pos 0) []) (in_field (codes "UserId") no_rule)
unfolding convert type_of same_type
map_to_struct = refl

abbrev numbers : Items ℤ ℤ
numbers = Items.cons (Value.integer int (pos 1)) (Items.cons (Value.str "" (codes "x")) Items.nil)

abbrev to_int8 : Conversion ℤ ℤ
unfolding convert
to_int8 = convert plain (Ty.integer int8)

slice_convert_lem_example :
    ((ws : Items ℤ ℤ) × (slice_convert
          (Ty.integer int8)
          (Value.integer int8 (pos 0))
          to_int8
          row
          (Value.slice Ty.any numbers)
        ≡ ok (Value.slice (Ty.integer int8) ws))
      × Pointwise to_int8 (Value.integer int8 (pos 0)) numbers ws)
    ⊎ ((e : Failure) × (slice_convert
            (Ty.integer int8)
            (Value.integer int8 (pos 0))
            to_int8
            row
            (Value.slice Ty.any numbers)
          ≡ failed row e)
        × FirstFailure to_int8 (Value.integer int8 (pos 0)) 0 numbers e)
    ⊎ ((slice_convert
            (Ty.integer int8)
            (Value.integer int8 (pos 0))
            to_int8
            row
            (Value.slice Ty.any numbers)
          ≡ panicked)
        × FirstPanic to_int8 (Value.integer int8 (pos 0)) numbers)
slice_convert_lem_example =
    slice_convert_lem to_int8 (Value.integer int8 (pos 0)) (Ty.integer int8) Ty.any row numbers
