-- ===== src/Copy/Typing.antt =====
-- struct.go: what conversions that return leave in a target, over the types of Copy.
pub mod Loops
pub mod Maps
pub mod Rules
pub mod Assign
pub mod Whole
use go_utility.Base.{
  ℕ, zero, suc, ◌+◌, Bool, true, false, ◌&&◌, ◌||◌, not, ◌≡◌, refl, ap, sym, subst, ◌∙◌, ◌⊎◌, inl,
  inr, Bool-cases, Option-cases, Option, none, some, List, [], ◌∷◌, if◌then◌else◌, arith,
}
use go_utility.Copy.{IntKind, int8, Label, Ty, Fields, Value, Items, Entries, Record}
use go_utility.Copy.Shape.{
  same_type, eq_of_same_type, type_of, fields_of, count_items, repeat, zero_value, zero_record,
  HasType, HasItems, HasEntries, HasFields,
}
use go_utility.Copy.Std.{
  Std, Failure, Assigned, assigned, refused_null, refused, Result, ok, failed, panicked,
}
use go_utility.Copy.Leaves.{stored, assignable, is_any_type, bytes_value}
use go_utility.Copy.Containers.{
  Conversion, map_result, or_keep, convert_items, slice_convert, fill_items, array_convert,
  put_entry,
}
use go_utility.Copy.Convert.{deref}

any_left : (a b : Bool) → (a || b) ≡ true → a ≡ false → b ≡ true
any_left true b h e = absurd (ground arith)
any_left false b h e = h

module _ {F T : Type 0} where
  abbrev pub IsTyped : Value F T → Type 0
  IsTyped v = (u : Ty) × HasType v u

  -- What a conversion to a type leaves in the target has the type, whether it fails or not.
  abbrev pub Typed : Ty → Result (Value F T) → Type 0
  Typed t (ok v) = HasType v t
  Typed t (failed v e) = HasType v t
  Typed t panicked = Unit

  abbrev pub Good : Ty → Conversion F T → Type 0
  Good t conv = (ro : Bool) (d v : Value F T) → HasType d t → IsTyped v → Typed t (conv ro d v)

  mutual
    unfolding type_of

    type_of-HasType_in : {v : Value F T} {t : Ty} → HasType v t → type_of v ≡ t
    type_of-HasType_in HasType.integer = refl
    type_of-HasType_in HasType.unsigned = refl
    type_of-HasType_in HasType.float = refl
    type_of-HasType_in HasType.str = refl
    type_of-HasType_in HasType.bool = refl
    type_of-HasType_in HasType.time = refl
    type_of-HasType_in HasType.nil_any = refl
    type_of-HasType_in (HasType.any h) = refl
    type_of-HasType_in HasType.nil_ptr = refl
    type_of-HasType_in (HasType.ptr h) = ap Ty.ptr (type_of-HasType_in h)
    type_of-HasType_in (HasType.slice n h) = refl
    type_of-HasType_in (HasType.array {t} h) = ap (λ m. Ty.array m t) (count-HasItems h)
    type_of-HasType_in (HasType.map h) = refl
    type_of-HasType_in (HasType.struct {s} h) = ap (Ty.struct s) (fields_of-HasFields h)

    count-HasItems : {vs : Items F T} {n : ℕ} {t : Ty} → HasItems vs n t → count_items vs ≡ n
    count-HasItems HasItems.nil = refl
    count-HasItems (HasItems.cons h hs) = ap suc (count-HasItems hs)

    fields_of-HasFields : {r : Record F T} {fs : Fields} → HasFields r fs → fields_of r ≡ fs
    fields_of-HasFields HasFields.end = refl
    fields_of-HasFields (HasFields.field {l} {v} {t} {r} {fs} h hs) =
        ap (λ u. Fields.field l u (fields_of r)) (type_of-HasType_in h)
        ∙ ap (Fields.field l t) (fields_of-HasFields hs)

  pub type_of-HasType : {v : Value F T} {t : Ty} → HasType v t → type_of v ≡ t
  type_of-HasType h = type_of-HasType_in h

  repeat-HasItems : (n : ℕ) {v : Value F T} {t : Ty} → HasType v t → HasItems (repeat n v) n t
  repeat-HasItems zero h = HasItems.nil
  repeat-HasItems (suc n) h = HasItems.cons h (repeat-HasItems n h)

  module _ (zf : F) (zt : T) where
    mutual
      unfolding zero_value

      zero_value-HasType_in : (t : Ty) → HasType (zero_value zf zt t) t
      zero_value-HasType_in (Ty.integer k) = HasType.integer
      zero_value-HasType_in (Ty.unsigned k) = HasType.unsigned
      zero_value-HasType_in (Ty.float k) = HasType.float
      zero_value-HasType_in (Ty.str n) = HasType.str
      zero_value-HasType_in Ty.bool = HasType.bool
      zero_value-HasType_in Ty.time = HasType.time
      zero_value-HasType_in Ty.any = HasType.nil_any
      zero_value-HasType_in (Ty.ptr t) = HasType.nil_ptr
      zero_value-HasType_in (Ty.slice t) = HasType.slice 0 HasItems.nil
      zero_value-HasType_in (Ty.array n t) =
          HasType.array (repeat-HasItems n (zero_value-HasType_in t))
      zero_value-HasType_in (Ty.map k t) = HasType.map HasEntries.none
      zero_value-HasType_in (Ty.struct s fs) = HasType.struct (zero_record-HasFields fs)

      zero_record-HasFields : (fs : Fields) → HasFields (zero_record zf zt fs) fs
      zero_record-HasFields Fields.end = HasFields.end
      zero_record-HasFields (Fields.field l t fs) =
          HasFields.field (zero_value-HasType_in t) (zero_record-HasFields fs)

    pub zero_value-HasType : (t : Ty) → HasType (zero_value zf zt t) t
    zero_value-HasType t = zero_value-HasType_in t

  any-HasType :
      (t : Ty) (v : Value F T) → is_any_type t ≡ true → IsTyped v → HasType (Value.any v) t
  any-HasType Ty.any v e (u, h) = HasType.any h
  any-HasType _ v e h = absurd (ground arith)

  pub stored-HasType :
      (t : Ty) (v : Value F T) → IsTyped v → assignable t v ≡ true → HasType (stored t v) t
  stored-HasType t v (u, h) e = elim (Bool-cases (same_type (type_of v) t)) [
    | inl same ↦
        rw same (subst (HasType v) (sym (type_of-HasType h) ∙ eq_of_same_type (type_of v) t same) h)
    | inr other ↦
        rw other
          (any-HasType t v (any_left (same_type (type_of v) t) (is_any_type t) e other) (u, h))
  ]

  -- A source that has been followed to the end of its pointers has a type.
  abbrev pub TypedOption : Option (Value F T) → Type 0
  TypedOption none = Unit
  TypedOption (some v) = IsTyped v

  pub deref-TypedOption : {v : Value F T} {u : Ty} → HasType v u → TypedOption (deref v)
  unfolding deref
  deref-TypedOption HasType.nil_ptr = tt
  deref-TypedOption (HasType.ptr h) = deref-TypedOption h
  deref-TypedOption h = (_, h)
