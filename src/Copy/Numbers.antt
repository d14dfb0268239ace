-- ===== src/Copy/Numbers.antt =====
-- struct.go: what numbers become, and which sources fail or panic.
use go_utility.Base.{
  ◌≤◌, Bool, true, false, ◌≡◌, ◌≢◌, refl, ap, ◌∙◌, inl, inr, Bool-cases, none, some, arith,
}
use go_utility.Base.Int.{ℤ, pos, negsuc, pos_part, neg_part}
use go_utility.Copy.{IntKind, int, int8, int16, int32, int64, Ty, Value}
use go_utility.Copy.Shape.{same_type, same_int, same_int_eq, type_of, InRange, zero_value}
use go_utility.Copy.Std.{Std, no_rule, Result, ok, failed, panicked}
use go_utility.Copy.Leaves.{wrap, is_number_type, unwrap_sql_null}
use go_utility.Copy.Scalar.{number_to_number, via_pgtype, fallback}
use go_utility.Copy.Containers.{slice_convert, array_convert, map_convert}
use go_utility.Copy.Convert.{
  deref, by_time, by_rules, assign_rules, to_value, to_pointer, struct_convert, convert,
  convert_fields, zero_of,
}

wrap-InRange : (k : IntKind) (z : ℤ) → InRange k (wrap k z)
unfolding wrap
wrap-InRange int (pos n) = ground arith
wrap-InRange int (negsuc n) = ground arith
wrap-InRange int8 (pos n) = ground arith
wrap-InRange int8 (negsuc n) = ground arith
wrap-InRange int16 (pos n) = ground arith
wrap-InRange int16 (negsuc n) = ground arith
wrap-InRange int32 (pos n) = ground arith
wrap-InRange int32 (negsuc n) = ground arith
wrap-InRange int64 (pos n) = ground arith
wrap-InRange int64 (negsuc n) = ground arith

-- A number in the range of its kind is kept.
wrap_id : (k : IntKind) (z : ℤ) → InRange k z → wrap k z ≡ z
unfolding wrap
wrap_id int (pos n) h = ground arith
wrap_id int (negsuc n) h = ground arith
wrap_id int8 (pos n) h = ground arith
wrap_id int8 (negsuc n) h = ground arith
wrap_id int16 (pos n) h = ground arith
wrap_id int16 (negsuc n) h = ground arith
wrap_id int32 (pos n) h = ground arith
wrap_id int32 (negsuc n) h = ground arith
wrap_id int64 (pos n) h = ground arith
wrap_id int64 (negsuc n) h = ground arith

-- What Go promises of numbers: a float64 keeps an integer of 53 bits, and numbers have no methods.
pub record IsExact {F T : Type 0} (std : Std F T) : Type 0 where
  pub keeps :
      (z : ℤ)
      → pos_part z ≤ 9007199254740992
      → neg_part z ≤ 9007199254740992
      → std.to_int (std.of_int z) ≡ z
  pub no_method : (k : IntKind) (z : ℤ) → std.has_assign_to (Value.integer k z) ≡ false

module _ {F T : Type 0} (std : Std F T) where
  -- What `convertAssign` does last for a type that is no pointer.
  abbrev inside_of : Ty → Value F T → Value F T → Result (Value F T)
  unfolding convert
  inside_of (Ty.slice t) = slice_convert t (zero_of std t) (convert std t)
  inside_of (Ty.array n t) = array_convert (convert std t)
  inside_of (Ty.map k t) = map_convert std k t (zero_of std t) (convert std t)
  inside_of (Ty.struct s fs) = struct_convert std (convert_fields std fs)
  inside_of t = fallback std t

  to_value_nil :
      (t : Ty) (inside : Value F T → Value F T → Result (Value F T)) (ro : Bool)
      (dst src : Value F T)
      → deref src ≡ none
      → to_value std t inside ro dst src ≡ ok (zero_of std t)
  unfolding to_value
  to_value_nil t inside ro dst src h = rw (to_value, h) refl

  to_value_found :
      (t : Ty) (inside : Value F T → Value F T → Result (Value F T)) (ro : Bool)
      (dst src v : Value F T)
      → deref src ≡ some v
      → to_value std t inside ro dst src ≡ assign_rules std t inside ro dst v
  unfolding to_value
  to_value_found t inside ro dst src v h = rw (to_value, h) refl

  -- A source that ends in a nil pointer makes the target its zero, however many pointers lead there
  -- and whether the target is a pointer or not.
  pub convert_nil :
      (t : Ty) (ro : Bool) (dst src : Value F T)
      → deref src ≡ none
      → convert std t ro dst src ≡ ok (zero_of std t)
  unfolding convert to_pointer zero_value
  convert_nil (Ty.ptr t) ro dst src h = rw (to_pointer, h) refl
  convert_nil t ro dst src h = to_value_nil t (inside_of t) ro dst src h

  assign_same :
      (k k' : IntKind) (z : ℤ) (inside : Value F T → Value F T → Result (Value F T))
      (dst : Value F T)
      → same_int k k' ≡ true
      → assign_rules std (Ty.integer k') inside false dst (Value.integer k z)
        ≡ ok (Value.integer k' z)
  unfolding assign_rules type_of same_type
  assign_same k k' z inside dst same =
      rw (assign_rules, same) (ap (λ j. ok (Value.integer j z)) (same_int_eq k k' same))

  assign_number :
      IsExact std
      → (k k' : IntKind) (z : ℤ) (inside : Value F T → Value F T → Result (Value F T))
        (dst : Value F T)
      → pos_part z ≤ 9007199254740992
      → neg_part z ≤ 9007199254740992
      → InRange k' z
      → same_int k k' ≡ false
      → assign_rules std (Ty.integer k') inside false dst (Value.integer k z)
        ≡ ok (Value.integer k' z)
  unfolding assign_rules via_pgtype unwrap_sql_null by_rules number_to_number type_of same_type
  assign_number exact k k' z inside dst lo hi range other =
      rw (assign_rules, other, exact.no_method k z)
        (ap (λ w. ok (Value.integer k' w))
          (ap (wrap k') (exact.keeps z lo hi) ∙ wrap_id k' z range))

  -- Converting between any two kinds of signed integers keeps the number if it has at most 53 bits
  -- and the target's kind holds it, whatever pointers lead to it.
  pub convert_integer :
      IsExact std
      → (k k' : IntKind) (z : ℤ) (dst src : Value F T) → deref src ≡ some (Value.integer k z)
      → pos_part z ≤ 9007199254740992
      → neg_part z ≤ 9007199254740992
      → InRange k' z
      → convert std (Ty.integer k') false dst src ≡ ok (Value.integer k' z)
  unfolding convert
  convert_integer exact k k' z dst src found lo hi range =
      to_value_found (Ty.integer k') (fallback std (Ty.integer k')) false dst src
        (Value.integer k z) found
      ∙ elim (Bool-cases (same_int k k')) [
        | inl same ↦ assign_same k k' z (fallback std (Ty.integer k')) dst same
        | inr other ↦
            assign_number exact k k' z (fallback std (Ty.integer k')) dst lo hi range other
      ]

  -- A source read from an unexported field makes the conversion panic, unless it is a nil pointer
  -- or the target is a pointer.
  pub convert_unexported :
      (t : Ty) (dst src v : Value F T)
      → deref src ≡ some v
      → ((u : Ty) → t ≢ Ty.ptr u)
      → convert std t true dst src ≡ panicked
  unfolding convert assign_rules
  convert_unexported (Ty.ptr t) dst src v h no_ptr = absurd (no_ptr t refl)
  convert_unexported t dst src v h no_ptr = to_value_found t (inside_of t) true dst src v h

  -- What is stored as an `any`, such as the values of a `map[string]any`, is converted to no
  -- number, not even to one of its own type; no method and no null of database/sql is in play.
  pub convert_any_number :
      (t : Ty) (dst v : Value F T)
      → is_number_type t ≡ true
      → std.has_assign_to (Value.any v) ≡ false
      → unwrap_sql_null (Value.any v) ≡ none
      → convert std t false dst (Value.any v) ≡ failed dst no_rule
  unfolding convert assign_rules via_pgtype by_rules type_of same_type fallback to_value deref
      by_time
  convert_any_number (Ty.integer k) dst v n m s = rw (assign_rules, m, s) refl
  convert_any_number (Ty.unsigned k) dst v n m s = rw (assign_rules, m, s) refl
  convert_any_number (Ty.float k) dst v n m s = rw (assign_rules, m, s) refl
  convert_any_number _ dst v n m s = absurd (ground arith)
