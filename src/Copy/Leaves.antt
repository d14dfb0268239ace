-- ===== src/Copy/Leaves.antt =====
-- The conversions of struct.go that do not look inside a container.
use go_utility.Base.{
  ℕ, ◌+◌, ◌-◌, ◌%◌, String, Bool, true, false, ◌||◌, not, Option, none, some, List, [], ◌∷◌, ◌==◌,
  nat_eq, string_eq, bytes_eq, ltb, if◌then◌else◌,
}
use go_utility.Base.Int.{ℤ, pos, negsuc}
use go_utility.Copy.{IntKind, int8, Ty, Value, Items, Record}
use go_utility.Copy.Shape.{same_type, type_of, half}
use go_utility.Copy.Names.{by_name}
use go_utility.Base.Text.{codes}

-- What a field of a kind keeps of an integer, and of a natural number.
unfoldable pub wrap : IntKind → ℤ → ℤ
wrap k (pos n) =
    let r = n % (half k + half k) in
    if ltb r (half k) then pos r else negsuc (half k + half k - 1 - r)
wrap k (negsuc n) =
    let r = n % (half k + half k) in
    if ltb r (half k) then negsuc r else pos (half k + half k - 1 - r)

abbrev pub wrap_unsigned : IntKind → ℕ → ℕ
wrap_unsigned k n = n % (half k + half k)

-- The tests on kinds; `Time` is a struct.
abbrev pub is_number_type : Ty → Bool
is_number_type (Ty.integer k) = true
is_number_type (Ty.unsigned k) = true
is_number_type (Ty.float k) = true
is_number_type _ = false

abbrev pub is_container_type : Ty → Bool
is_container_type (Ty.struct s fs) = true
is_container_type Ty.time = true
is_container_type (Ty.map k t) = true
is_container_type (Ty.slice t) = true
is_container_type _ = false

abbrev pub is_byte_type : Ty → Bool
is_byte_type (Ty.unsigned int8) = true
is_byte_type _ = false

abbrev pub is_bytes_type : Ty → Bool
is_bytes_type (Ty.slice t) = is_byte_type t
is_bytes_type _ = false

abbrev pub is_any_type : Ty → Bool
is_any_type Ty.any = true
is_any_type _ = false

abbrev pub is_sql_null : String → Bool
is_sql_null s =
    s == "sql.NullString"
    || (s == "sql.NullInt32"
        || (s == "sql.NullInt64"
            || (s == "sql.NullFloat64" || (s == "sql.NullBool" || s == "sql.NullTime"))))

module _ {F T : Type 0} where
  abbrev pub is_number_or_text : Value F T → Bool
  is_number_or_text (Value.integer k z) = true
  is_number_or_text (Value.unsigned k n) = true
  is_number_or_text (Value.float k f) = true
  is_number_or_text (Value.str n s) = true
  is_number_or_text _ = false

  abbrev byte_list : Items F T → List ℕ
  byte_list Items.nil = []
  byte_list (Items.cons (Value.unsigned k n) vs) = n ∷ byte_list vs
  byte_list (Items.cons _ vs) = byte_list vs

  -- The value's bytes when it is a `[]byte`.
  abbrev pub bytes_of : Value F T → Option (List ℕ)
  bytes_of (Value.slice t vs) = if is_byte_type t then some (byte_list vs) else none
  bytes_of _ = none

  abbrev pub byte_items : List ℕ → Items F T
  byte_items [] = Items.nil
  byte_items (n ∷ s) = Items.cons (Value.unsigned int8 n) (byte_items s)

  abbrev pub bytes_value : List ℕ → Value F T
  bytes_value s = Value.slice (Ty.unsigned int8) (byte_items s)

  -- A string's text, or a `[]byte`'s.
  abbrev pub raw_text : Value F T → Option (List ℕ)
  raw_text (Value.str n s) = some s
  raw_text v = bytes_of v

  -- `src.Type().AssignableTo(dst.Type())` and `dst.Set(src)`.
  abbrev pub assignable : Ty → Value F T → Bool
  assignable t v = same_type (type_of v) t || is_any_type t

  abbrev pub stored : Ty → Value F T → Value F T
  stored t v = if same_type (type_of v) t then v else Value.any v

  abbrev valid_of : Value F T → Option Bool
  valid_of (Value.bool b) = some b
  valid_of _ = none

  abbrev field_valid : Record F T → Option Bool
  field_valid r = elim (by_name (codes "Valid") r) [ none ↦ none | some v ↦ valid_of v ]

  -- `isPgtypeNullValue`, both of its answers being true.
  unfoldable pub is_null_value : Value F T → Bool
  is_null_value (Value.struct s r) = elim (field_valid r) [ none ↦ false | some b ↦ not b ]
  is_null_value _ = false

  abbrev pub null_parts : Record F T → Option (Value F T × Bool)
  null_parts (Record.field l v (Record.field l' (Value.bool b) Record.end)) = some (v, b)
  null_parts _ = none

  -- `unwrapSQLNull`: the six types of database/sql, a value and its validity. `Interface()` gives
  -- what an `any` holds.
  unfoldable pub unwrap_sql_null : Value F T → Option (Value F T × Bool)
  unwrap_sql_null (Value.any v) = unwrap_sql_null v
  unwrap_sql_null (Value.struct s r) = if is_sql_null s then null_parts r else none
  unwrap_sql_null _ = none
