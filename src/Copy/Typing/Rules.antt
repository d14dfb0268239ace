-- ===== src/Copy/Typing/Rules.antt =====
-- The rules on single values, and the whole of `convertAssign`, keep to the target's type.
use go_utility.Base.{
  ◌==◌, string_eq, ℕ, Bool, true, false, ◌&&◌, ◌≡◌, refl, subst, ◌⊎◌, inl, inr, Bool-cases, Option,
  none, some, List, [], ◌∷◌, if◌then◌else◌, arith,
}
use go_utility.Copy.{IntKind, int, int64, float32, float64, Ty, Value}
use go_utility.Copy.Shape.{HasType, HasItems}
use go_utility.Copy.Std.{Std, Failure, Assigned, assigned, refused_null, refused, Result, ok}
use go_utility.Copy.Leaves.{
  is_bytes_type, is_number_type, is_container_type, byte_items, bytes_value,
}
use go_utility.Copy.Scalar.{
  looks_like_json, convert_json, to_float, from_float, number_to_number, found_time, to_time,
  from_time, fallback, via_other, via_text, by_text, via_pgtype, is_time_type,
}
use go_utility.Copy.Typing.{Typed}

-- What the library promises: `json.Unmarshal` and `AssignTo` fill the type they are given.
pub record IsStd {F T : Type 0} (std : Std F T) : Type 0 where
  pub unmarshal_typed :
      (t : Ty) (raw : List ℕ) (v : Value F T) → std.unmarshal t raw ≡ some v → HasType v t
  pub assigned_typed :
      (src : Value F T) (t : Ty) (v : Value F T) → std.assign_to src t ≡ assigned v → HasType v t

module _ {F T : Type 0} where
  byte_items-HasItems :
      (s : List ℕ) → (n : ℕ) × HasItems {F = F} {T = T} (byte_items s) n (Ty.unsigned IntKind.int8)
  byte_items-HasItems [] = (0, HasItems.nil)
  byte_items-HasItems (c ∷ s) =
      let (n, h) = byte_items-HasItems s in (ℕ.suc n, HasItems.cons HasType.unsigned h)

  pub bytes_value-HasType :
      (t : Ty) (s : List ℕ) → is_bytes_type t ≡ true → HasType {F = F} {T = T} (bytes_value s) t
  bytes_value-HasType (Ty.slice (Ty.unsigned IntKind.int8)) s h =
      let (n, hs) = byte_items-HasItems s in HasType.slice n hs
  bytes_value-HasType _ s h = absurd (ground arith)

  -- A branch on a computed option or Boolean keeps to a type when both of its sides do.
  pub option_step :
      {A : Type 0} (t : Ty) (o : Option A) (r : Result (Value F T)) (f : A → Result (Value F T))
      → Typed t r
      → ((a : A) → o ≡ some a → Typed t (f a))
      → Typed t (elim o [ none ↦ r | some a ↦ f a ])
  option_step t none r f hr hf = hr
  option_step t (some a) r f hr hf = hf a refl

  pub bool_step :
      (t : Ty) (b : Bool) (r q : Result (Value F T))
      → (b ≡ true → Typed t r)
      → (b ≡ false → Typed t q)
      → Typed t (if b then r else q)
  bool_step t true r q hr hq = hr refl
  bool_step t false r q hr hq = hq refl

  pub sum_step :
      {A : Type 0} (t : Ty) (s : Failure ⊎ A) (f : Failure → Result (Value F T))
      (g : A → Result (Value F T))
      → ((e : Failure) → Typed t (f e))
      → ((a : A) → s ≡ inr a → Typed t (g a))
      → Typed t (elim s [ inl e ↦ f e | inr a ↦ g a ])
  sum_step t (inl e) f g hf hg = hf e
  sum_step t (inr a) f g hf hg = hg a refl

module _ {F T : Type 0} (std : Std F T) (is_std : IsStd std) where
  pub convert_json-Typed :
      (t : Ty) (dst : Value F T) (raw : List ℕ)
      → HasType dst t
      → Typed t (convert_json std t dst raw)
  unfolding convert_json
  convert_json-Typed t dst raw h =
      bool_step t (is_bytes_type t) _ _ (bytes_value-HasType t raw)
        (λ other. option_step t (std.unmarshal t raw) _ _ h (is_std.unmarshal_typed t raw))

  abbrev TypedSum : Ty → Failure ⊎ Value F T → Type 0
  TypedSum t (inl e) = Unit
  TypedSum t (inr v) = HasType v t

  from_float-TypedSum : (t : Ty) (f : F) → TypedSum t (from_float std t f)
  from_float-TypedSum (Ty.integer k) f = HasType.integer
  from_float-TypedSum (Ty.unsigned k) f = HasType.unsigned
  from_float-TypedSum (Ty.float float32) f = HasType.float
  from_float-TypedSum (Ty.float float64) f = HasType.float
  from_float-TypedSum _ f = tt

  pub number_to_number-Typed :
      (t : Ty) (dst src : Value F T) → HasType dst t → Typed t (number_to_number std t dst src)
  unfolding number_to_number
  number_to_number-Typed t dst src hd =
      sum_step t (to_float std src) _ _ (λ e. hd)
        (λ f e.
          sum_step t (from_float std t f) _ _ (λ e. hd)
            (λ v found. subst (TypedSum t) found (from_float-TypedSum t f)))

  pub to_time-Typed :
      (dst src : Value F T) → HasType dst Ty.time → Typed Ty.time (to_time std dst src)
  unfolding to_time
  to_time-Typed dst src hd = option_step Ty.time (found_time std src) _ _ hd (λ t e. HasType.time)

  pub from_time-Typed :
      (t : Ty) (dst : Value F T) (x : T) → HasType dst t → Typed t (from_time std t dst x)
  unfolding from_time
  from_time-Typed (Ty.str n) dst x hd = HasType.str
  from_time-Typed (Ty.integer int) dst x hd = HasType.integer
  from_time-Typed (Ty.integer int64) dst x hd = HasType.integer
  from_time-Typed _ dst x hd = hd

  pub fallback-Typed :
      (t : Ty) (dst src : Value F T) → HasType dst t → Typed t (fallback std t dst src)
  unfolding fallback
  fallback-Typed (Ty.str n) dst src hd = HasType.str
  fallback-Typed Ty.bool dst (Value.str n s) hd =
      option_step Ty.bool (std.parse_bool (std.trim_space s)) _ _ hd (λ b e. HasType.bool)
  fallback-Typed Ty.bool dst (Value.integer k z) hd = HasType.bool
  fallback-Typed Ty.bool dst (Value.unsigned k n) hd = HasType.bool
  fallback-Typed Ty.bool dst (Value.float k f) hd = HasType.bool
  fallback-Typed _ dst src hd = hd

  by_text_time :
      (t : Ty) (dst : Value F T) (s : List ℕ)
      → HasType dst t
      → is_time_type std t ≡ true
      → Typed t (to_time std dst (Value.str "" s))
  by_text_time Ty.time dst s hd e = to_time-Typed dst (Value.str "" s) hd
  by_text_time _ dst s hd e = absurd (ground arith)

  via_other-Typed :
      (t : Ty) (dst : Value F T) (s : List ℕ) → HasType dst t → Typed t (via_other std t dst s)
  unfolding via_other
  via_other-Typed t dst s hd =
      bool_step t (is_container_type t && looks_like_json std (Value.str "" s)) _ _
        (λ e. convert_json-Typed t dst s hd)
        (λ e.
          bool_step t (is_number_type t) _ _ (λ e. number_to_number-Typed t dst (Value.str "" s) hd)
            (λ e. bool_step t (is_time_type std t) _ _ (by_text_time t dst s hd) (λ e.
              bool_step t (is_bytes_type t) _ _ (bytes_value-HasType t s)
                (λ e. fallback-Typed t dst (Value.str "" s) hd))))

  via_text-Typed :
      (t : Ty) (dst : Value F T) (s : List ℕ) → HasType dst t → Typed t (via_text std t dst s)
  unfolding via_text
  via_text-Typed (Ty.str n) dst s hd = elim (Bool-cases (n == "")) [
    | inl plain ↦ rw plain HasType.str
    | inr named ↦ rw named tt
  ]
  via_text-Typed t dst s hd = via_other-Typed t dst s hd

  abbrev pub TypedVia : Ty → Option (Result (Value F T)) → Type 0
  TypedVia t none = Unit
  TypedVia t (some r) = Typed t r

  by_text-TypedVia :
      (t : Ty) (dst : Value F T) (o : Option (List ℕ))
      → HasType dst t
      → TypedVia t (by_text std t dst o)
  unfolding by_text
  by_text-TypedVia t dst none hd = tt
  by_text-TypedVia t dst (some s) hd = via_text-Typed t dst s hd

  after_assign :
      (t : Ty) (dst : Value F T) (a : Assigned F T) (o : Option (List ℕ))
      → ((v : Value F T) → a ≡ assigned v → HasType v t)
      → HasType dst t
      → TypedVia t (elim a [ assigned v ↦ some (ok v) | _ ↦ by_text std t dst o ])
  after_assign t dst (assigned v) o h hd = h v refl
  after_assign t dst refused_null o h hd = by_text-TypedVia t dst o hd
  after_assign t dst refused o h hd = by_text-TypedVia t dst o hd

  pub via_pgtype-TypedVia :
      (t : Ty) (dst src : Value F T) → HasType dst t → TypedVia t (via_pgtype std t dst src)
  unfolding via_pgtype
  via_pgtype-TypedVia t dst src hd = elim (Bool-cases (std.has_assign_to src)) [
    | inl has ↦ rw has (
        after_assign t dst (std.assign_to src t) (std.assign_text src) (is_std.assigned_typed src t)
          hd)
    | inr has_not ↦ rw has_not tt
  ]
