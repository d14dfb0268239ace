-- ===== src/Copy/Typing/Assign.antt =====
-- The rules of `convertAssign` on a source that is no pointer, and those on pointers, keep to the
-- target's type.
use go_utility.Base.{
  String, ℕ, Bool, true, false, ◌&&◌, inl, inr, Bool-cases, Option, none, some, List, if◌then◌else◌,
}
use go_utility.Copy.{Ty, Fields, Value, Record}
use go_utility.Copy.Shape.{HasType, HasFields}
use go_utility.Copy.Std.{Std, Result, ok, failed, panicked}
use go_utility.Copy.Leaves.{
  assignable, is_bytes_type, is_number_type, is_number_or_text, bytes_value, bytes_of,
  unwrap_sql_null, null_parts, is_sql_null, is_null_value,
}
use go_utility.Copy.Scalar.{convert_json, via_pgtype}
use go_utility.Copy.Containers.{Conversion, map_result}
use go_utility.Copy.Convert.{
  deref, json_text, byte_copy, by_time, by_rules, by_validity, assign_rules, to_value, pointee,
  to_pointer, zero_of,
}
use go_utility.Copy.Typing.{
  IsTyped, Typed, Good, zero_value-HasType, stored-HasType, TypedOption, deref-TypedOption,
}
use go_utility.Copy.Typing.Rules.{
  IsStd, bool_step, convert_json-Typed, number_to_number-Typed, to_time-Typed, from_time-Typed,
  via_pgtype-TypedVia, TypedVia, bytes_value-HasType,
}

module _ {F T : Type 0} where
  abbrev TypedAt : Ty → Option (Value F T) → Type 0
  TypedAt t none = Unit
  TypedAt t (some v) = HasType v t

module _ (F T : Type 0) where
  text_copy :
      (n : String) (o : Option (List ℕ))
      → TypedAt {F = F} {T = T} (Ty.str n) (elim o [ none ↦ none | some s ↦ some (Value.str n s) ])
  text_copy n none = tt
  text_copy n (some s) = HasType.str

  bytes_copy :
      (t : Ty) (s : List ℕ)
      → TypedAt {F = F} {T = T} t (if is_bytes_type t then some (bytes_value s) else none)
  bytes_copy t s = elim (Bool-cases (is_bytes_type t)) [
    | inl bytes ↦ rw bytes (bytes_value-HasType t s bytes)
    | inr other ↦ rw other tt
  ]

module _ {F T : Type 0} where
  byte_copy-TypedAt : (std : Std F T) (t : Ty) (src : Value F T) → TypedAt t (byte_copy std t src)
  byte_copy-TypedAt std (Ty.str n) src = text_copy F T n (bytes_of src)
  byte_copy-TypedAt std t (Value.str n s) = bytes_copy F T t s
  byte_copy-TypedAt std t src = tt

  pointed :
      (t : Ty) (r : Result (Value F T)) → Typed t r → Typed (Ty.ptr t) (map_result Value.ptr r)
  pointed t (ok v) h = HasType.ptr h
  pointed t (failed v e) h = HasType.ptr h
  pointed t panicked h = tt

  abbrev TypedParts : Option (Value F T × Bool) → Type 0
  TypedParts none = Unit
  TypedParts (some (v, b)) = IsTyped v

  null_parts-TypedParts :
      {r : Record F T} {fs : Fields} → HasFields r fs → TypedParts (null_parts r)
  null_parts-TypedParts (HasFields.field h (HasFields.field HasType.bool HasFields.end)) = (_, h)
  null_parts-TypedParts h = tt

  unwrap-TypedParts : {v : Value F T} {u : Ty} → HasType v u → TypedParts (unwrap_sql_null v)
  unfolding unwrap_sql_null
  unwrap-TypedParts (HasType.any h) = unwrap-TypedParts h
  unwrap-TypedParts (HasType.struct {s} h) = elim (Bool-cases (is_sql_null s)) [
    | inl null ↦ rw null (null_parts-TypedParts h)
    | inr other ↦ rw other tt
  ]
  unwrap-TypedParts h = tt

module _ {F T : Type 0} (std : Std F T) (is_std : IsStd std) where
  by_time-Typed :
      (t : Ty) (inside : Value F T → Value F T → Result (Value F T)) (dst src : Value F T)
      → HasType dst t
      → Typed t (inside dst src)
      → Typed t (by_time std t inside dst src)
  unfolding by_time
  by_time-Typed Ty.time inside dst src hd h = to_time-Typed std is_std dst src hd
  by_time-Typed t inside dst (Value.time x) hd h = from_time-Typed std is_std t dst x hd
  by_time-Typed t inside dst src hd h = h

  after_copy :
      (t : Ty) (o : Option (Value F T)) (r : Result (Value F T))
      → TypedAt t o
      → Typed t r
      → Typed t (elim o [ some v ↦ ok v | none ↦ r ])
  after_copy t none r ho hr = hr
  after_copy t (some v) r ho hr = ho

  after_json :
      (t : Ty) (dst : Value F T) (o : Option (List ℕ)) (r : Result (Value F T))
      → HasType dst t
      → Typed t r
      → Typed t (elim o [ some raw ↦ convert_json std t dst raw | none ↦ r ])
  after_json t dst none r hd hr = hr
  after_json t dst (some raw) r hd hr = convert_json-Typed std is_std t dst raw hd

  by_rules-Typed :
      (t : Ty) (inside : Value F T → Value F T → Result (Value F T)) (dst src : Value F T)
      → HasType dst t
      → Typed t (inside dst src)
      → Typed t (by_rules std t inside dst src)
  unfolding by_rules
  by_rules-Typed t inside dst src hd h = after_json t dst (json_text std t src) _ hd (
      bool_step t (is_number_type t && is_number_or_text src) _ _
        (λ e. number_to_number-Typed std is_std t dst src hd)
        (λ e.
          after_copy t (byte_copy std t src) _ (byte_copy-TypedAt std t src)
            (by_time-Typed t inside dst src hd h)))

  -- The rules on containers keep to the type, whatever source they get.
  abbrev pub GoodInside : Ty → (Value F T → Value F T → Result (Value F T)) → Type 0
  GoodInside t inside = (d v : Value F T) → HasType d t → IsTyped v → Typed t (inside d v)

  pub zero_of-HasType : (t : Ty) → HasType (zero_of std t) t
  zero_of-HasType t = zero_value-HasType std.zero_float std.zero_time t

  by_validity-Typed :
      (t : Ty) (inside : Value F T → Value F T → Result (Value F T)) (dst : Value F T)
      (valid : Bool) (base : Value F T)
      → GoodInside t inside
      → HasType dst t
      → IsTyped base
      → Typed t (by_validity std t inside dst valid base)
  unfolding by_validity
  by_validity-Typed t inside dst false base good hd hb = zero_of-HasType t
  by_validity-Typed t inside dst true base good hd hb =
      bool_step t (assignable t base) _ _ (stored-HasType t base hb)
        (λ e. by_rules-Typed t inside dst base hd (good dst base hd hb))

  after_unwrap :
      (t : Ty) (inside : Value F T → Value F T → Result (Value F T)) (dst : Value F T)
      (o : Option (Value F T × Bool)) (r : Result (Value F T))
      → GoodInside t inside
      → HasType dst t
      → TypedParts o
      → Typed t r
      → Typed t (elim o [ none ↦ r | some (base, valid) ↦ by_validity std t inside dst valid base ])
  after_unwrap t inside dst none r good hd ho hr = hr
  after_unwrap t inside dst (some (base, valid)) r good hd ho hr =
      by_validity-Typed t inside dst valid base good hd ho

  after_via :
      (t : Ty) (o : Option (Result (Value F T))) (r : Result (Value F T))
      → TypedVia std is_std t o
      → Typed t r
      → Typed t (elim o [ some q ↦ q | none ↦ r ])
  after_via t none r ho hr = hr
  after_via t (some q) r ho hr = ho

  assign_rules-Typed :
      (t : Ty) (inside : Value F T → Value F T → Result (Value F T)) (ro : Bool)
      (dst src : Value F T)
      → GoodInside t inside
      → HasType dst t
      → IsTyped src
      → Typed t (assign_rules std t inside ro dst src)
  unfolding assign_rules
  assign_rules-Typed t inside true dst src good hd hs = tt
  assign_rules-Typed t inside false dst src good hd hs =
      bool_step t (assignable t src) _ _ (stored-HasType t src hs) (λ e.
        after_via t (via_pgtype std t dst src) _ (via_pgtype-TypedVia std is_std t dst src hd) (
          after_unwrap t inside dst (unwrap_sql_null src) _ good hd (unwrap-TypedParts hs.1)
            (by_rules-Typed t inside dst src hd (good dst src hd hs))))

  after_deref :
      (t : Ty) (inside : Value F T → Value F T → Result (Value F T)) (ro : Bool) (dst : Value F T)
      (o : Option (Value F T))
      → GoodInside t inside
      → HasType dst t
      → TypedOption o
      → Typed t (elim o [ none ↦ ok (zero_of std t) | some v ↦ assign_rules std t inside ro dst v ])
  after_deref t inside ro dst none good hd ho = zero_of-HasType t
  after_deref t inside ro dst (some v) good hd ho = assign_rules-Typed t inside ro dst v good hd ho

  pub to_value-Good :
      (t : Ty) (inside : Value F T → Value F T → Result (Value F T))
      → GoodInside t inside
      → Good t (to_value std t inside)
  unfolding to_value
  to_value-Good t inside good ro dst src hd hs =
      after_deref t inside ro dst (deref src) good hd (deref-TypedOption hs.1)

  pointee-HasType : {t : Ty} {d : Value F T} → HasType d (Ty.ptr t) → HasType (pointee std t d) t
  pointee-HasType (HasType.ptr h) = h
  pointee-HasType {t} HasType.nil_ptr = zero_of-HasType t

  after_pointer :
      (t : Ty) (conv : Conversion F T) (ro : Bool) (dst : Value F T) (o : Option (Value F T))
      → Good t conv
      → HasType dst (Ty.ptr t)
      → TypedOption o
      → Typed (Ty.ptr t) (elim o [
        | none ↦ ok (Value.nil_ptr t)
        | some v ↦
            if is_null_value v
            then ok (Value.nil_ptr t)
            else map_result Value.ptr (conv ro (pointee std t dst) v)
      ])
  after_pointer t conv ro dst none good hd ho = HasType.nil_ptr
  after_pointer t conv ro dst (some v) good hd ho =
      bool_step (Ty.ptr t) (is_null_value v) _ _ (λ e. HasType.nil_ptr)
        (λ e.
          pointed t (conv ro (pointee std t dst) v)
            (good ro (pointee std t dst) v (pointee-HasType hd) ho))

  pub to_pointer-Good :
      (t : Ty) (conv : Conversion F T) → Good t conv → Good (Ty.ptr t) (to_pointer std t conv)
  unfolding to_pointer
  to_pointer-Good t conv good ro dst src hd hs =
      after_pointer t conv ro dst (deref src) good hd (deref-TypedOption hs.1)
