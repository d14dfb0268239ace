-- ===== src/Copy/Std.antt =====
-- What struct.go uses of Go's library, and the outcomes of a conversion.
use go_utility.Base.{ℕ, Bool, Option, List}
use go_utility.Base.Int.{ℤ}
use go_utility.Copy.{Ty, Value}

-- How a method `AssignTo` answers: it has assigned, or its error does or does not speak of NULL.
pub data Assigned (F T : Type 0) : Type 0 where
  assigned : Value F T → Assigned F T
  refused_null refused : Assigned F T

-- The packages fmt, strconv, strings, bytes, time and encoding/json, the conversions of floats,
-- and the methods `AssignTo` of the values that have one.
pub record Std (F T : Type 0) : Type 0 where
  pub zero_float : F
  pub of_int : ℤ → F
  pub of_uint : ℕ → F
  pub to_int : F → ℤ
  pub to_uint : F → ℕ
  pub is_negative : F → Bool
  pub is_nonzero : F → Bool
  pub round32 : F → F
  pub parse_float : List ℕ → Option F
  pub parse_int : List ℕ → Option ℤ
  pub parse_bool : List ℕ → Option Bool
  pub trim_space : List ℕ → List ℕ
  pub equal_fold : List ℕ → List ℕ → Bool
  pub sprint : Value F T → List ℕ
  pub zero_time : T
  pub parse_time : List ℕ → Option T
  pub from_unix : ℤ → T
  pub unix : T → ℤ
  pub format : T → List ℕ
  pub date : ℤ → ℤ → ℤ → T
  pub unmarshal : Ty → List ℕ → Option (Value F T)
  pub has_assign_to : Value F T → Bool
  pub assign_to : Value F T → Ty → Assigned F T
  pub assign_text : Value F T → Option (List ℕ)

pub data Failure : Type 0 where
  dst_is_nil not_a_pointer not_settable : Failure
  bad_json bad_number unsupported_number bad_bool no_rule : Failure
  not_a_time not_from_time not_an_array not_a_map not_a_struct only_string_keys : Failure
  slice_index array_index : ℕ → Failure → Failure
  map_key in_field : List ℕ → Failure → Failure

-- A conversion ends with what the target then holds, with an error besides, or with a panic.
pub data Result (A : Type 0) : Type 0 where
  ok : A → Result A
  failed : A → Failure → Result A
  panicked : Result A
