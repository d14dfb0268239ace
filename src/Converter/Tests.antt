-- ===== src/Converter/Tests.antt =====
-- Runs of the converter, and an example of the result about it.
use go_utility.Base.{
  ℕ, ◌%◌, String, ◌≡◌, refl, sym, ap, ◌∙◌, subst, Bool, true, false, Option, none, some, List, [],
  ◌∷◌, map, string_eq, arith,
}
use go_utility.Converter.{
  Reflect, Field, Row, map_to_struct, struct, row, unreadable, failure, slice, array, map_target,
  convert_rows,
}
use go_utility.Converter.Fields.{IsGo}
use go_utility.Converter.Rows.{Appended, convert_rows-Appended}

-- A few of Go's types and values.
data Ty : Type 0 where
  int64 int32 : Ty
  ptr : Ty → Ty

data Val : Type 0 where
  long short : ℕ → Val
  to : Val → Val
  nil : Ty → Val

abbrev ty_beq : Ty → Ty → Bool
ty_beq int64 int64 = true
ty_beq int32 int32 = true
ty_beq (ptr t) (ptr u) = ty_beq t u
ty_beq _ _ = false

abbrev ty_of : Val → Ty
ty_of (long n) = int64
ty_of (short n) = int32
ty_of (to v) = ptr (ty_of v)
ty_of (nil t) = ptr t

abbrev elem : Ty → Option Ty
elem (ptr t) = some t
elem _ = none

abbrev can_convert : Ty → Ty → Bool
can_convert int64 int32 = true
can_convert int32 int64 = true
can_convert _ _ = false

abbrev converted : Ty → Val → Option Val
converted int32 (long n) = some (short (n % 4294967296))
converted int64 (short n) = some (long n)
converted _ _ = none

abbrev zero_of : Ty → Val
zero_of int64 = long 0
zero_of int32 = short 0
zero_of (ptr t) = nil t

abbrev a_go : Reflect Ty Val
a_go = record {
  type_of = ty_of;
  assignable = ty_beq;
  convertible = can_convert;
  convert = converted;
  stored = λ t v. v;
  elem_of = elem;
  pointer = to;
  zero = zero_of;
}

ty_beq_refl : (t : Ty) → ty_beq t t ≡ true
ty_beq_refl int64 = refl
ty_beq_refl int32 = refl
ty_beq_refl (ptr t) = ty_beq_refl t

ty_of_beq : (t u : Ty) → ty_beq t u ≡ true → t ≡ u
ty_of_beq int64 int64 h = refl
ty_of_beq int32 int32 h = refl
ty_of_beq (ptr t) (ptr u) h = ap ptr (ty_of_beq t u h)
ty_of_beq int64 int32 h = absurd (ground arith)
ty_of_beq int64 (ptr u) h = absurd (ground arith)
ty_of_beq int32 int64 h = absurd (ground arith)
ty_of_beq int32 (ptr u) h = absurd (ground arith)
ty_of_beq (ptr t) int64 h = absurd (ground arith)
ty_of_beq (ptr t) int32 h = absurd (ground arith)

converts :
    (t : Ty) (v w : Val) → converted t v ≡ some w → (ty_beq (ty_of w) t ≡ true) × (ty_of w ≡ t)
converts int32 (long n) w h = ground arith
converts int64 (short n) w h = ground arith
converts int64 (long n) w h = absurd (ground arith)
converts int32 (short n) w h = absurd (ground arith)
converts (ptr t) v w h = absurd (ground arith)
converts t (to v) w h = absurd (ground arith)
converts t (nil u) w h = absurd (ground arith)

-- The conversions of a number do not panic.
safe : (n : ℕ) (t : Ty) → can_convert int64 t ≡ true → (w : Val) × (converted t (long n) ≡ some w)
safe n int32 h = (short (n % 4294967296), refl)
safe n int64 h = absurd (ground arith)
safe n (ptr t) h = absurd (ground arith)

zero_type : (t : Ty) → ty_of (zero_of t) ≡ t
zero_type int64 = refl
zero_type int32 = refl
zero_type (ptr t) = refl

points : (t u : Ty) (v : Val) → elem t ≡ some u → ty_of v ≡ u → ty_beq (ty_of (to v)) t ≡ true
points int64 u v e h = absurd (ground arith)
points int32 u v e h = absurd (ground arith)
points (ptr t) u v e h =
    let same : t ≡ u = ap (λ o. elim o [ none ↦ t | some x ↦ x ]) e in
    subst (λ w. ty_beq w t ≡ true) (sym (h ∙ sym same)) (ty_beq_refl t)

a_go-IsGo : IsGo a_go
a_go-IsGo = record {
  stored_type = λ t v h. ty_of_beq (ty_of v) t h;
  converts = converts;
  zero_type = zero_type;
  points = points;
}

-- A struct with a small number, and a pointer to one.
abbrev user : List (Field Ty Val)
user =
    record { tags = ("db", "age") ∷ []; ty = int32; can_set = true; value = short 0 }
    ∷ record { tags = ("db", "boss") ∷ []; ty = ptr int32; can_set = true; value = nil int32 }
    ∷ []

abbrev ann : Row Val
ann = ("age", some (long 30)) ∷ ("boss", some (long 7)) ∷ []

ann_filled :
    map_to_struct a_go ann "db" user
    ≡ some (
        record { tags = ("db", "age") ∷ []; ty = int32; can_set = true; value = short 30 }
        ∷ record {
          tags = ("db", "boss") ∷ [];
          ty = ptr int32;
          can_set = true;
          value = to (short 7);
        }
        ∷ [])
unfolding map_to_struct
ann_filled = refl

-- A pointer of another type panics.
other_pointer : map_to_struct a_go (("boss", some (to (long 7))) ∷ []) "db" user ≡ none
unfolding map_to_struct
other_pointer = refl

-- A map that the caller passes stays as it was, without an error.
map_lost :
    convert_rows {E = String} a_go "db" (λ f v. (v, none)) (row ann ∷ []) (map_target [])
    ≡ some (map_target [], none, true)
unfolding convert_rows
map_lost = refl

-- An array panics at the first row.
array_panics : convert_rows {E = String} a_go "db" (λ f v. (v, none)) (row ann ∷ []) array ≡ none
unfolding convert_rows
array_panics = refl

convert_rows-Appended_example :
    (news : List (List (Field Ty Val))) × Appended a_go a_go-IsGo "db" user (ann ∷ []) news
    × (convert_rows {E = String} a_go "db"
          (λ f v. (v, none))
          (row ann ∷ [])
          (slice (struct user) [])
        ≡ some (slice (struct user) (map struct news), none, true))
    × (convert_rows {E = String} a_go "db"
          (λ f v. (v, none))
          (row ann ∷ unreadable "eof" ∷ [])
          (slice (struct user) [])
        ≡ some (slice (struct user) (map struct news), some (failure "eof"), false))
convert_rows-Appended_example =
    convert_rows-Appended a_go a_go-IsGo "db" user (λ f v. (v, none)) (ann ∷ []) "eof" [] []
      ((refl, refl), ((refl, refl), tt)) (((refl, safe 30), ((refl, safe 7), tt)), tt)
