-- ===== src/Copy/Convert.antt =====
-- `convertAssign` and `Copy`, by recursion on the target's type. Only structs and strings have named types.
use go_utility.Base.{ℕ, Bool, true, false, ◌&&◌, not, Option, none, some, List, if◌then◌else◌}
use go_utility.Copy.{Label, Ty, Fields, Value, Record}
use go_utility.Copy.Shape.{type_of, zero_value}
use go_utility.Copy.Std.{
  Std, dst_is_nil, not_a_pointer, not_settable, not_a_struct, only_string_keys, in_field, Result,
  ok, failed, panicked,
}
use go_utility.Copy.Names.{field_names, find_field, find_entry}
use go_utility.Copy.Leaves.{
  is_number_type, is_container_type, is_bytes_type, is_number_or_text, bytes_of, bytes_value,
  raw_text, assignable, stored, is_null_value, unwrap_sql_null,
}
use go_utility.Copy.Scalar.{
  looks_like_json, convert_json, number_to_number, to_time, from_time, fallback, via_pgtype,
}
use go_utility.Copy.Containers.{Conversion, map_result, slice_convert, array_convert, map_convert}

-- What finds the source of a field by its names, with its export.
abbrev pub Finder : Type 0 → Type 0 → Type 0
Finder F T = List (List ℕ) → Option (Bool × Value F T)

module _ {F T : Type 0} where
  -- The loop that follows pointers; `none` is a nil one.
  unfoldable pub deref : Value F T → Option (Value F T)
  deref (Value.nil_ptr t) = none
  deref (Value.ptr v) = deref v
  deref v = some v

  abbrev pub of_entry : Option (Value F T) → Option (Bool × Value F T)
  of_entry none = none
  of_entry (some v) = some (true, v)

  unfoldable pub struct_from :
      (Finder F T → Record F T → Result (Record F T)) → Finder F T → Value F T → Result (Value F T)
  struct_from fields find (Value.struct s ds) = map_result (Value.struct s) (fields find ds)
  struct_from fields find dst = panicked

  module _ (std : Std F T) where
    abbrev pub zero_of : Ty → Value F T
    zero_of t = zero_value std.zero_float std.zero_time t

    abbrev pub json_text : Ty → Value F T → Option (List ℕ)
    unfolding looks_like_json
    json_text t src = if is_container_type t && looks_like_json std src then raw_text src else none

    abbrev pub byte_copy : Ty → Value F T → Option (Value F T)
    byte_copy (Ty.str n) src = elim (bytes_of src) [ none ↦ none | some s ↦ some (Value.str n s) ]
    byte_copy t (Value.str n s) = if is_bytes_type t then some (bytes_value s) else none
    byte_copy _ _ = none

    unfoldable pub by_time :
        Ty
        → (Value F T → Value F T → Result (Value F T))
        → Value F T
        → Value F T
        → Result (Value F T)
    unfolding to_time from_time
    by_time Ty.time inside dst src = to_time std dst src
    by_time t inside dst (Value.time x) = from_time std t dst x
    by_time t inside dst src = inside dst src

    -- The rules on JSON, numbers, bytes and times, and then those on containers, which are `inside`.
    unfoldable pub by_rules :
        Ty
        → (Value F T → Value F T → Result (Value F T))
        → Value F T
        → Value F T
        → Result (Value F T)
    unfolding json_text convert_json number_to_number by_time
    by_rules t inside dst src = elim (json_text t src) [
      | some raw ↦ convert_json std t dst raw
      | none ↦
          if is_number_type t && is_number_or_text src
          then number_to_number std t dst src
          else elim (byte_copy t src) [ some v ↦ ok v | none ↦ by_time t inside dst src ]
    ]

    unfoldable pub by_validity :
        Ty
        → (Value F T → Value F T → Result (Value F T))
        → Value F T
        → Bool
        → Value F T
        → Result (Value F T)
    unfolding by_rules
    by_validity t inside dst true base =
        if assignable t base then ok (stored t base) else by_rules t inside dst base
    by_validity t inside dst false base = ok (zero_of t)

    -- `convertAssign` of a source that is no pointer to a target that is none.
    unfoldable pub assign_rules : Ty → (Value F T → Value F T → Result (Value F T)) → Conversion F T
    unfolding via_pgtype unwrap_sql_null by_rules by_validity
    assign_rules t inside true dst src = panicked
    assign_rules t inside false dst src =
        if assignable t src then ok (stored t src) else elim (via_pgtype std t dst src) [
          | some r ↦ r
          | none ↦ elim (unwrap_sql_null src) [
            | none ↦ by_rules t inside dst src
            | some (base, valid) ↦ by_validity t inside dst valid base
          ]
        ]

    unfoldable pub to_value : Ty → (Value F T → Value F T → Result (Value F T)) → Conversion F T
    unfolding deref assign_rules
    to_value t inside ro dst src = elim (deref src) [
      | none ↦ ok (zero_of t)
      | some v ↦ assign_rules t inside ro dst v
    ]

    abbrev pub pointee : Ty → Value F T → Value F T
    pointee t (Value.ptr d) = d
    pointee t d = zero_of t

    unfoldable pub to_pointer : Ty → Conversion F T → Conversion F T
    unfolding deref is_null_value
    to_pointer t conv ro dst src = elim (deref src) [
      | none ↦ ok (Value.nil_ptr t)
      | some v ↦
          if is_null_value v
          then ok (Value.nil_ptr t)
          else map_result Value.ptr (conv ro (pointee t dst) v)
    ]

    unfoldable pub struct_convert :
        (Finder F T → Record F T → Result (Record F T)) → Value F T → Value F T → Result (Value F T)
    unfolding struct_from find_field find_entry
    struct_convert fields dst (Value.struct s r) = struct_from fields (λ ks. find_field ks r) dst
    struct_convert fields dst (Value.map (Ty.str n) u es) =
        struct_from fields (λ ks. of_entry (find_entry std.equal_fold ks es)) dst
    struct_convert fields dst (Value.map k u es) = failed dst only_string_keys
    struct_convert fields dst src = failed dst not_a_struct

    -- One round of the loop over the target's fields, for a field that is exported.
    abbrev pub fill_field :
        Label
        → Conversion F T
        → Option (Bool × Value F T)
        → Value F T
        → Record F T
        → Result (Record F T)
        → Result (Record F T)
    fill_field l conv none d ds rest = map_result (Record.field l d) rest
    fill_field l conv (some (exported, v)) d ds rest = elim (conv (not exported) d v) [
      | panicked ↦ panicked
      | failed a e ↦ failed (Record.field l a ds) (in_field l.name e)
      | ok a ↦ map_result (Record.field l a) rest
    ]

    unfoldable mutual
      unfolding to_value to_pointer slice_convert array_convert map_convert struct_convert fallback
          field_names

      pub convert : Ty → Conversion F T
      convert (Ty.ptr t) = to_pointer t (convert t)
      convert (Ty.slice t) = to_value (Ty.slice t) (slice_convert t (zero_of t) (convert t))
      convert (Ty.array n t) = to_value (Ty.array n t) (array_convert (convert t))
      convert (Ty.map k t) = to_value (Ty.map k t) (map_convert std k t (zero_of t) (convert t))
      convert (Ty.struct s fs) = to_value (Ty.struct s fs) (struct_convert (convert_fields fs))
      convert t = to_value t (fallback std t)

      pub convert_fields : Fields → Finder F T → Record F T → Result (Record F T)
      convert_fields Fields.end find ds = ok ds
      convert_fields (Fields.field l t fs) find Record.end = panicked
      convert_fields (Fields.field l t fs) find (Record.field l' d ds) =
          let rest = convert_fields fs find ds in
          if l.exported
          then fill_field l (convert t) (find (field_names l)) d ds rest
          else map_result (Record.field l' d) rest

    -- `Copy`; both arguments are what an `any` holds, `none` where it is nil. A nil source is no
    -- value of `reflect`, and has no type to ask for.
    unfoldable pub copy : Option (Value F T) → Option (Value F T) → Result (Option (Value F T))
    unfolding convert
    copy none src = failed none dst_is_nil
    copy (some (Value.nil_ptr t)) src = failed (some (Value.nil_ptr t)) not_settable
    copy (some (Value.ptr d)) none = panicked
    copy (some (Value.ptr d)) (some v) =
        map_result (λ a. some (Value.ptr a)) (convert (type_of d) false d v)
    copy (some d) src = failed (some d) not_a_pointer
