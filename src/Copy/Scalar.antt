-- ===== src/Copy/Scalar.antt =====
-- The conversions of struct.go to and from numbers, times, JSON and text, and `AssignTo`.
use go_utility.Base.{
  ◌==◌, string_eq, ℕ, zero, Bool, true, false, ◌&&◌, ◌||◌, not, Option, none, some, List, [], ◌∷◌,
  nat_eq, bytes_eq, nat_beq, if◌then◌else◌, ◌⊎◌, inl, inr,
}
use go_utility.Base.Int.{ℤ, pos}
use go_utility.Base.Text.{codes}
use go_utility.Copy.{int, int64, float32, float64, Ty, Value, Record}
use go_utility.Copy.Std.{
  Std, Assigned, assigned, refused_null, refused, Failure, bad_json, bad_number, unsupported_number,
  bad_bool, no_rule, not_a_time, not_from_time, Result, ok, failed, panicked,
}
use go_utility.Copy.Names.{by_name}
use go_utility.Copy.Leaves.{
  wrap, wrap_unsigned, is_number_type, is_container_type, is_bytes_type, bytes_value, raw_text,
}

abbrev is_nonzero_int : ℤ → Bool
is_nonzero_int (pos zero) = false
is_nonzero_int _ = true

module _ {F T : Type 0} (std : Std F T) where
  abbrev opens_json : List ℕ → Bool
  opens_json [] = false
  opens_json (c ∷ s) = nat_beq c b'{' || nat_beq c b'['

  unfoldable pub looks_like_json : Value F T → Bool
  looks_like_json v = elim (raw_text v) [ none ↦ false | some s ↦ opens_json (std.trim_space s) ]

  -- `convertJSON` of a text, to a type that is no string.
  unfoldable pub convert_json : Ty → Value F T → List ℕ → Result (Value F T)
  convert_json t dst raw =
      if is_bytes_type t
      then ok (bytes_value raw)
      else elim (std.unmarshal t raw) [ none ↦ failed dst bad_json | some v ↦ ok v ]

  -- The two halves of `numberToNumber`: all numbers go through a float64.
  abbrev pub to_float : Value F T → Failure ⊎ F
  to_float (Value.integer k z) = inr (std.of_int z)
  to_float (Value.unsigned k n) = inr (std.of_uint n)
  to_float (Value.float k f) = inr f
  to_float (Value.str n s) = elim (std.parse_float (std.trim_space s)) [
    | none ↦ inl bad_number
    | some f ↦ inr f
  ]
  to_float _ = inl unsupported_number

  abbrev pub from_float : Ty → F → Failure ⊎ Value F T
  from_float (Ty.integer k) f = inr (Value.integer k (wrap k (std.to_int f)))
  from_float (Ty.unsigned k) f =
      inr (Value.unsigned k (if std.is_negative f then 0 else wrap_unsigned k (std.to_uint f)))
  from_float (Ty.float float32) f = inr (Value.float float32 (std.round32 f))
  from_float (Ty.float float64) f = inr (Value.float float64 f)
  from_float _ f = inl unsupported_number

  unfoldable pub number_to_number : Ty → Value F T → Value F T → Result (Value F T)
  number_to_number t dst src = elim (to_float src) [
    | inl e ↦ failed dst e
    | inr f ↦ elim (from_float t f) [ inl e ↦ failed dst e | inr v ↦ ok v ]
  ]

  abbrev time_text : List ℕ → Option T
  time_text s = elim (std.parse_time (std.trim_space s)) [
    | some t ↦ some t
    | none ↦ elim (std.parse_int (std.trim_space s)) [
      | none ↦ none
      | some z ↦ some (std.from_unix z)
    ]
  ]

  abbrev as_time : Value F T → Option T
  as_time (Value.time t) = some t
  as_time _ = none

  abbrev as_int : Value F T → Option ℤ
  as_int (Value.integer k z) = some z
  as_int _ = none

  abbrev part : List ℕ → Record F T → Option ℤ
  part k r = elim (by_name k r) [ none ↦ none | some v ↦ as_int v ]

  abbrev ymd : Option ℤ → Option ℤ → Option ℤ → Option T
  ymd (some y) (some m) (some d) = some (std.date y m d)
  ymd _ _ _ = none

  abbrev date_fields : Record F T → Option T
  date_fields r = ymd (part (codes "Year") r) (part (codes "Month") r) (part (codes "Day") r)

  abbrev is_invalid : Record F T → Bool
  is_invalid r = elim (by_name (codes "Valid") r) [ some (Value.bool false) ↦ true | _ ↦ false ]

  -- The field of type `Time`, else the date of the three fields.
  abbrev time_fields : Record F T → Option T
  time_fields r = elim (by_name (codes "Time") r) [
    | none ↦ date_fields r
    | some v ↦ elim (as_time v) [ some t ↦ some t | none ↦ date_fields r ]
  ]

  -- The rules of `toTime` after that of `AssignTo`.
  abbrev plain_time : Value F T → Option T
  plain_time (Value.str n s) = time_text s
  plain_time (Value.integer int z) = some (std.from_unix z)
  plain_time (Value.integer int64 z) = some (std.from_unix z)
  plain_time (Value.struct s r) = if is_invalid r then some std.zero_time else time_fields r
  plain_time _ = none

  abbrev assigned_time : Assigned F T → Option T
  assigned_time (assigned v) = as_time v
  assigned_time refused_null = some std.zero_time
  assigned_time refused = none

  abbrev by_method : Value F T → Option T
  by_method src = if std.has_assign_to src then assigned_time (std.assign_to src Ty.time) else none

  abbrev pub found_time : Value F T → Option T
  found_time (Value.time t) = some t
  found_time src = elim (by_method src) [ some t ↦ some t | none ↦ plain_time src ]

  unfoldable pub to_time : Value F T → Value F T → Result (Value F T)
  to_time dst src = elim (found_time src) [
    | none ↦ failed dst not_a_time
    | some t ↦ ok (Value.time t)
  ]

  unfoldable pub from_time : Ty → Value F T → T → Result (Value F T)
  from_time (Ty.str n) dst t = ok (Value.str n (std.format t))
  from_time (Ty.integer int) dst t = ok (Value.integer int (std.unix t))
  from_time (Ty.integer int64) dst t = ok (Value.integer int64 (std.unix t))
  from_time _ dst t = failed dst not_from_time

  unfoldable pub fallback : Ty → Value F T → Value F T → Result (Value F T)
  fallback (Ty.str n) dst src = ok (Value.str n (std.sprint src))
  fallback Ty.bool dst (Value.str n s) = elim (std.parse_bool (std.trim_space s)) [
    | none ↦ failed dst bad_bool
    | some b ↦ ok (Value.bool b)
  ]
  fallback Ty.bool dst (Value.integer k z) = ok (Value.bool (is_nonzero_int z))
  fallback Ty.bool dst (Value.unsigned k n) = ok (Value.bool (not (nat_beq n 0)))
  fallback Ty.bool dst (Value.float k f) = ok (Value.bool (std.is_nonzero f))
  fallback _ dst src = failed dst no_rule

  -- What `tryAssignViaPgtype` makes of the text that `AssignTo` gave in place of the target's type.
  abbrev pub is_time_type : Ty → Bool
  is_time_type Ty.time = true
  is_time_type _ = false

  unfoldable pub via_other : Ty → Value F T → List ℕ → Result (Value F T)
  unfolding looks_like_json convert_json number_to_number to_time fallback
  via_other t dst s =
      if is_container_type t && looks_like_json (Value.str "" s)
      then convert_json t dst s
      else (if is_number_type t
          then number_to_number t dst (Value.str "" s)
          else (if is_time_type t
              then to_time dst (Value.str "" s)
              else (if is_bytes_type t
                  then ok (bytes_value s)
                  else fallback t dst (Value.str "" s))))

  unfoldable pub via_text : Ty → Value F T → List ℕ → Result (Value F T)
  unfolding via_other
  via_text (Ty.str n) dst s = if n == "" then ok (Value.str n s) else panicked
  via_text t dst s = via_other t dst s

  unfoldable pub by_text : Ty → Value F T → Option (List ℕ) → Option (Result (Value F T))
  unfolding via_text
  by_text t dst none = none
  by_text t dst (some s) = some (via_text t dst s)

  -- `tryAssignViaPgtype`; `none` leaves the value to the other rules.
  unfoldable pub via_pgtype : Ty → Value F T → Value F T → Option (Result (Value F T))
  unfolding by_text
  via_pgtype t dst src =
      if std.has_assign_to src
      then (elim (std.assign_to src t) [
        | assigned v ↦ some (ok v)
        | _ ↦ by_text t dst (std.assign_text src)
      ])
      else none
