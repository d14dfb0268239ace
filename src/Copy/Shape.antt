-- ===== src/Copy/Shape.antt =====
-- `Type()`, `reflect.Zero`, the identity of types, and the typing of values.
use go_utility.Base.{
  ℕ, zero, suc, ◌≤◌, ◌<◌, String, Bool, true, false, ◌&&◌, not, ◌≡◌, refl, ap, ◌∙◌, List, [], ◌==◌,
  nat_eq, string_eq, bytes_eq, eq_of_beq, if◌then◌else◌, arith,
}
use go_utility.Base.Int.{ℤ, pos, pos_part, neg_part}
use go_utility.Copy.{
  IntKind, int, int8, int16, int32, int64, FloatKind, float32, float64, Label, Ty, Fields, Value,
  Items, Entries, Record,
}

abbrev pub same_int : IntKind → IntKind → Bool
same_int int int = true
same_int int8 int8 = true
same_int int16 int16 = true
same_int int32 int32 = true
same_int int64 int64 = true
same_int _ _ = false

abbrev pub same_float : FloatKind → FloatKind → Bool
same_float float32 float32 = true
same_float float64 float64 = true
same_float _ _ = false

abbrev pub same_label : Label → Label → Bool
same_label a b =
    a.name == b.name
    && (a.db == b.db
        && (a.json == b.json
            && ((if a.exported then b.exported else not b.exported)
                && (if a.embedded then b.embedded else not b.embedded))))

-- `==` on `reflect.Type`.
unfoldable mutual
  pub same_type : Ty → Ty → Bool
  same_type (Ty.integer k) (Ty.integer k') = same_int k k'
  same_type (Ty.unsigned k) (Ty.unsigned k') = same_int k k'
  same_type (Ty.float k) (Ty.float k') = same_float k k'
  same_type (Ty.str n) (Ty.str n') = n == n'
  same_type Ty.bool Ty.bool = true
  same_type Ty.time Ty.time = true
  same_type Ty.any Ty.any = true
  same_type (Ty.ptr t) (Ty.ptr t') = same_type t t'
  same_type (Ty.slice t) (Ty.slice t') = same_type t t'
  same_type (Ty.array n t) (Ty.array n' t') = n == n' && same_type t t'
  same_type (Ty.map k t) (Ty.map k' t') = same_type k k' && same_type t t'
  same_type (Ty.struct s fs) (Ty.struct s' fs') = s == s' && same_fields fs fs'
  same_type _ _ = false

  pub same_fields : Fields → Fields → Bool
  same_fields Fields.end Fields.end = true
  same_fields (Fields.field l t fs) (Fields.field l' t' fs') =
      same_label l l' && (same_type t t' && same_fields fs fs')
  same_fields _ _ = false

pub same_int_eq : (k k' : IntKind) → same_int k k' ≡ true → k ≡ k'
same_int_eq int int h = refl
same_int_eq int8 int8 h = refl
same_int_eq int16 int16 h = refl
same_int_eq int32 int32 h = refl
same_int_eq int64 int64 h = refl
same_int_eq _ _ h = absurd (ground arith)

same_float_eq : (k k' : FloatKind) → same_float k k' ≡ true → k ≡ k'
same_float_eq float32 float32 h = refl
same_float_eq float64 float64 h = refl
same_float_eq _ _ h = absurd (ground arith)

same_label_eq : (a b : Label) → same_label a b ≡ true → a ≡ b
same_label_eq a b h = ground (
  arith,
  bytes_eq.beq_iff a.name b.name,
  bytes_eq.beq_iff a.db b.db,
  bytes_eq.beq_iff a.json b.json,
)

both : (a b : Bool) → (a && b) ≡ true → (a ≡ true) × (b ≡ true)
both true true h = (refl, refl)
both _ _ h = absurd (ground arith)

mutual
  unfolding same_type

  same_type_eq : (t t' : Ty) → same_type t t' ≡ true → t ≡ t'
  same_type_eq (Ty.integer k) (Ty.integer k') h = ap Ty.integer (same_int_eq k k' h)
  same_type_eq (Ty.unsigned k) (Ty.unsigned k') h = ap Ty.unsigned (same_int_eq k k' h)
  same_type_eq (Ty.float k) (Ty.float k') h = ap Ty.float (same_float_eq k k' h)
  same_type_eq (Ty.str n) (Ty.str n') h = ap Ty.str (eq_of_beq n n' h)
  same_type_eq Ty.bool Ty.bool h = refl
  same_type_eq Ty.time Ty.time h = refl
  same_type_eq Ty.any Ty.any h = refl
  same_type_eq (Ty.ptr t) (Ty.ptr t') h = ap Ty.ptr (same_type_eq t t' h)
  same_type_eq (Ty.slice t) (Ty.slice t') h = ap Ty.slice (same_type_eq t t' h)
  same_type_eq (Ty.array n t) (Ty.array n' t') h =
      let (hn, ht) = both (n == n') (same_type t t') h in
      ap (λ m. Ty.array m t) (eq_of_beq n n' hn) ∙ ap (Ty.array n') (same_type_eq t t' ht)
  same_type_eq (Ty.map k t) (Ty.map k' t') h =
      let (hk, ht) = both (same_type k k') (same_type t t') h in
      ap (λ j. Ty.map j t) (same_type_eq k k' hk) ∙ ap (Ty.map k') (same_type_eq t t' ht)
  same_type_eq (Ty.struct s fs) (Ty.struct s' fs') h =
      let (hs, hf) = both (s == s') (same_fields fs fs') h in
      ap (λ n. Ty.struct n fs) (eq_of_beq s s' hs) ∙ ap (Ty.struct s') (same_fields_eq fs fs' hf)
  same_type_eq _ _ h = absurd (ground arith)

  same_fields_eq : (fs fs' : Fields) → same_fields fs fs' ≡ true → fs ≡ fs'
  same_fields_eq Fields.end Fields.end h = refl
  same_fields_eq (Fields.field l t fs) (Fields.field l' t' fs') h =
      let (hl, hr) = both (same_label l l') (same_type t t' && same_fields fs fs') h in
      let (ht, hf) = both (same_type t t') (same_fields fs fs') hr in
      ap (λ m. Fields.field m t fs) (same_label_eq l l' hl)
      ∙ ap (λ u. Fields.field l' u fs) (same_type_eq t t' ht)
      ∙ ap (Fields.field l' t') (same_fields_eq fs fs' hf)
  same_fields_eq _ _ h = absurd (ground arith)

pub eq_of_same_type : (t t' : Ty) → same_type t t' ≡ true → t ≡ t'
eq_of_same_type = same_type_eq

module _ {F T : Type 0} where
  -- `v.Type()`
  unfoldable mutual
    pub type_of : Value F T → Ty
    type_of (Value.integer k z) = Ty.integer k
    type_of (Value.unsigned k n) = Ty.unsigned k
    type_of (Value.float k f) = Ty.float k
    type_of (Value.str n s) = (Ty.str n)
    type_of (Value.bool b) = Ty.bool
    type_of (Value.time t) = Ty.time
    type_of Value.nil_any = Ty.any
    type_of (Value.any v) = Ty.any
    type_of (Value.nil_ptr t) = Ty.ptr t
    type_of (Value.ptr v) = Ty.ptr (type_of v)
    type_of (Value.slice t vs) = Ty.slice t
    type_of (Value.array t vs) = Ty.array (count_items vs) t
    type_of (Value.map k t es) = Ty.map k t
    type_of (Value.struct s r) = Ty.struct s (fields_of r)

    pub fields_of : Record F T → Fields
    fields_of Record.end = Fields.end
    fields_of (Record.field l v r) = Fields.field l (type_of v) (fields_of r)

    pub count_items : Items F T → ℕ
    count_items Items.nil = 0
    count_items (Items.cons v vs) = suc (count_items vs)

  abbrev pub repeat : ℕ → Value F T → Items F T
  repeat zero v = Items.nil
  repeat (suc n) v = Items.cons v (repeat n v)

  -- `reflect.Zero`, with the zero of the two types that are not spelt out.
  module _ (zero_float : F) (zero_time : T) where
    unfoldable mutual
      pub zero_value : Ty → Value F T
      zero_value (Ty.integer k) = Value.integer k (pos 0)
      zero_value (Ty.unsigned k) = Value.unsigned k 0
      zero_value (Ty.float k) = Value.float k zero_float
      zero_value (Ty.str n) = Value.str n []
      zero_value Ty.bool = Value.bool false
      zero_value Ty.time = Value.time zero_time
      zero_value Ty.any = Value.nil_any
      zero_value (Ty.ptr t) = Value.nil_ptr t
      zero_value (Ty.slice t) = Value.slice t Items.nil
      zero_value (Ty.array n t) = Value.array t (repeat n (zero_value t))
      zero_value (Ty.map k t) = Value.map k t Entries.none
      zero_value (Ty.struct s fs) = Value.struct s (zero_record fs)

      pub zero_record : Fields → Record F T
      zero_record Fields.end = Record.end
      zero_record (Fields.field l t fs) = Record.field l (zero_value t) (zero_record fs)

-- The size in bits, and the integers that a kind holds.
abbrev pub half : IntKind → ℕ
half int = 9223372036854775808
half int8 = 128
half int16 = 32768
half int32 = 2147483648
half int64 = 9223372036854775808

abbrev pub InRange : IntKind → ℤ → Type 0
InRange k z = (pos_part z < half k) × (neg_part z ≤ half k)

-- Values that have the shape of a type all the way down.
mutual
  pub data HasType {F T : Type 0} : Value F T → Ty → Type 0 where
    integer : {k : IntKind} {z : ℤ} → HasType (Value.integer k z) (Ty.integer k)
    unsigned : {k : IntKind} {n : ℕ} → HasType (Value.unsigned k n) (Ty.unsigned k)
    float : {k : FloatKind} {f : F} → HasType (Value.float k f) (Ty.float k)
    str : {n : String} {s : List ℕ} → HasType (Value.str n s) (Ty.str n)
    bool : {b : Bool} → HasType (Value.bool b) Ty.bool
    time : {t : T} → HasType (Value.time t) Ty.time
    nil_any : HasType Value.nil_any Ty.any
    any : {v : Value F T} {t : Ty} → HasType v t → HasType (Value.any v) Ty.any
    nil_ptr : {t : Ty} → HasType (Value.nil_ptr t) (Ty.ptr t)
    ptr : {v : Value F T} {t : Ty} → HasType v t → HasType (Value.ptr v) (Ty.ptr t)
    slice :
        {t : Ty} {vs : Items F T} (n : ℕ)
        → HasItems vs n t
        → HasType (Value.slice t vs) (Ty.slice t)
    array :
        {t : Ty} {vs : Items F T} {n : ℕ}
        → HasItems vs n t
        → HasType (Value.array t vs) (Ty.array n t)
    map :
        {k t : Ty} {es : Entries F T} → HasEntries es k t → HasType (Value.map k t es) (Ty.map k t)
    struct :
        {s : String} {r : Record F T} {fs : Fields}
        → HasFields r fs
        → HasType (Value.struct s r) (Ty.struct s fs)

  pub data HasItems {F T : Type 0} : Items F T → ℕ → Ty → Type 0 where
    nil : {t : Ty} → HasItems Items.nil 0 t
    cons :
        {t : Ty} {v : Value F T} {vs : Items F T} {n : ℕ}
        → HasType v t
        → HasItems vs n t
        → HasItems (Items.cons v vs) (suc n) t

  pub data HasEntries {F T : Type 0} : Entries F T → Ty → Ty → Type 0 where
    none : {k t : Ty} → HasEntries Entries.none k t
    entry :
        {k t : Ty} {j v : Value F T} {es : Entries F T}
        → HasType j k
        → HasType v t
        → HasEntries es k t
        → HasEntries (Entries.entry j v es) k t

  pub data HasFields {F T : Type 0} : Record F T → Fields → Type 0 where
    end : HasFields Record.end Fields.end
    field :
        {l : Label} {v : Value F T} {t : Ty} {r : Record F T} {fs : Fields}
        → HasType v t
        → HasFields r fs
        → HasFields (Record.field l v r) (Fields.field l t fs)
