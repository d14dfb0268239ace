-- ===== src/Copy/Typing/Whole.antt =====
-- `convertAssign` keeps to the target's type.
use go_utility.Base.{ℕ, String, Bool, true, false, not, Option, none, some, List, if◌then◌else◌}
use go_utility.Copy.{Label, Ty, Fields, Value, Record}
use go_utility.Copy.Shape.{HasType, HasFields}
use go_utility.Copy.Std.{Std, Failure, Result, ok, failed, panicked}
use go_utility.Copy.Names.{field_names, find_field, find_entry}
use go_utility.Copy.Scalar.{fallback}
use go_utility.Copy.Containers.{Conversion, map_result, slice_convert, array_convert, map_convert}
use go_utility.Copy.Convert.{
  Finder, of_entry, struct_from, struct_convert, fill_field, convert, convert_fields, zero_of,
}
use go_utility.Copy.Typing.{Typed, Good}
use go_utility.Copy.Typing.Loops.{slice_convert-Typed, array_convert-Typed}
use go_utility.Copy.Typing.Maps.{
  TypedFound, find_field-TypedFound, find_entry-TypedFound, map_convert-Typed,
}
use go_utility.Copy.Typing.Rules.{IsStd, fallback-Typed}
use go_utility.Copy.Typing.Assign.{GoodInside, to_value-Good, to_pointer-Good, zero_of-HasType}

module _ {F T : Type 0} where
  abbrev TypedRecord : Fields → Result (Record F T) → Type 0
  TypedRecord fs (ok r) = HasFields r fs
  TypedRecord fs (failed r e) = HasFields r fs
  TypedRecord fs panicked = Unit

  add_field :
      (l : Label) (t : Ty) (fs : Fields) (v : Value F T) (r : Result (Record F T))
      → HasType v t
      → TypedRecord fs r
      → TypedRecord (Fields.field l t fs) (map_result (Record.field l v) r)
  add_field l t fs v (ok r) h hs = HasFields.field h hs
  add_field l t fs v (failed r e) h hs = HasFields.field h hs
  add_field l t fs v panicked h hs = tt

  after_field :
      (l : Label) (t : Ty) (fs : Fields) (r : Result (Value F T)) (ds : Record F T)
      (rest : Result (Record F T))
      → Typed t r
      → HasFields ds fs
      → TypedRecord fs rest
      → TypedRecord (Fields.field l t fs) (elim r [
        | panicked ↦ panicked
        | failed a e ↦ failed (Record.field l a ds) (Failure.in_field l.name e)
        | ok a ↦ map_result (Record.field l a) rest
      ])
  after_field l t fs (ok a) ds rest h hd hr = add_field l t fs a rest h hr
  after_field l t fs (failed a e) ds rest h hd hr = HasFields.field h hd
  after_field l t fs panicked ds rest h hd hr = tt

  as_struct :
      (s : String) (fs : Fields) (r : Result (Record F T))
      → TypedRecord fs r
      → Typed (Ty.struct s fs) (map_result (Value.struct s) r)
  as_struct s fs (ok r) h = HasType.struct h
  as_struct s fs (failed r e) h = HasType.struct h
  as_struct s fs panicked h = tt

  abbrev GoodFinder : Finder F T → Type 0
  GoodFinder find = (ks : List (List ℕ)) → TypedFound (find ks)

module _ {F T : Type 0} (std : Std F T) (is_std : IsStd std) where
  after_find :
      (l : Label) (t : Ty) (fs : Fields) (conv : Conversion F T) (o : Option (Bool × Value F T))
      (d : Value F T) (ds : Record F T) (rest : Result (Record F T))
      → Good t conv
      → TypedFound o
      → HasType d t
      → HasFields ds fs
      → TypedRecord fs rest
      → TypedRecord (Fields.field l t fs) (fill_field std l conv o d ds rest)
  after_find l t fs conv none d ds rest good ho hd hds hr = add_field l t fs d rest hd hr
  after_find l t fs conv (some (b, v)) d ds rest good ho hd hds hr =
      after_field l t fs (conv (not b) d v) ds rest (good (not b) d v hd ho) hds hr

  either_field :
      (l : Label) (t : Ty) (fs : Fields) (exported : Bool) (r : Result (Record F T)) (d : Value F T)
      (rest : Result (Record F T))
      → TypedRecord (Fields.field l t fs) r
      → HasType d t
      → TypedRecord fs rest
      → TypedRecord
          (Fields.field l t fs)
          (if exported then r else map_result (Record.field l d) rest)
  either_field l t fs true r d rest h hd hr = h
  either_field l t fs false r d rest h hd hr = add_field l t fs d rest hd hr

  struct_from-Typed :
      (s : String) (fs : Fields) (fields : Finder F T → Record F T → Result (Record F T))
      (find : Finder F T) {dst : Value F T}
      → ((ds : Record F T) → HasFields ds fs → TypedRecord fs (fields find ds))
      → HasType dst (Ty.struct s fs)
      → Typed (Ty.struct s fs) (struct_from fields find dst)
  unfolding struct_from
  struct_from-Typed s fs fields find good (HasType.struct {r = ds} h) =
      as_struct s fs (fields find ds) (good ds h)

  abbrev GoodFields : Fields → (Finder F T → Record F T → Result (Record F T)) → Type 0
  GoodFields fs fields =
      (find : Finder F T) (ds : Record F T)
      → GoodFinder find
      → HasFields ds fs
      → TypedRecord fs (fields find ds)

  struct_convert-Typed :
      (s : String) (fs : Fields) (fields : Finder F T → Record F T → Result (Record F T))
      → GoodFields fs fields
      → GoodInside std is_std (Ty.struct s fs) (struct_convert std fields)
  unfolding struct_convert
  struct_convert-Typed s fs fields good dst (Value.struct s' r) hd (u, HasType.struct h) =
      struct_from-Typed s fs fields (λ ks. find_field ks r)
        (λ ds hds. good (λ ks. find_field ks r) ds (λ ks. find_field-TypedFound ks h) hds) hd
  struct_convert-Typed s fs fields good dst (Value.map (Ty.str n) u es) hd (w, HasType.map h) =
      struct_from-Typed s fs fields (λ ks. of_entry (find_entry std.equal_fold ks es))
        (λ ds hds.
          good (λ ks. of_entry (find_entry std.equal_fold ks es)) ds
            (λ ks. find_entry-TypedFound std.equal_fold ks h) hds)
        hd
  struct_convert-Typed s fs fields good dst src hd h = hd

  mutual
    unfolding convert

    convert-Good : (t : Ty) → Good t (convert std t)
    convert-Good (Ty.ptr t) = to_pointer-Good std is_std t (convert std t) (convert-Good t)
    convert-Good (Ty.slice t) =
        to_value-Good std is_std (Ty.slice t) (slice_convert t (zero_of std t) (convert std t))
          (λ d v hd hv.
            slice_convert-Typed t (convert std t) (zero_of std t) d v (convert-Good t)
              (zero_of-HasType std is_std t) hd hv)
    convert-Good (Ty.array n t) =
        to_value-Good std is_std (Ty.array n t) (array_convert (convert std t))
          (λ d v hd hv. array_convert-Typed n t (convert std t) v (convert-Good t) hd hv)
    convert-Good (Ty.map k t) =
        to_value-Good std is_std (Ty.map k t) (map_convert std k t (zero_of std t) (convert std t))
          (λ d v hd hv.
            map_convert-Typed std k t (convert std t) (zero_of std t) d v (convert-Good t)
              (zero_of-HasType std is_std t) hd hv)
    convert-Good (Ty.struct s fs) =
        to_value-Good std is_std (Ty.struct s fs) (struct_convert std (convert_fields std fs))
          (struct_convert-Typed s fs (convert_fields std fs) (convert_fields-Good fs))
    convert-Good t =
        to_value-Good std is_std t (fallback std t)
          (λ d v hd hv. fallback-Typed std is_std t d v hd)

    convert_fields-Good : (fs : Fields) → GoodFields fs (convert_fields std fs)
    convert_fields-Good Fields.end find ds hf hd = hd
    convert_fields-Good (Fields.field l t fs) find Record.end hf hd = elim hd [ ]
    convert_fields-Good (Fields.field l t fs) find (Record.field l' d ds) hf
          (HasFields.field hd hds) =
        either_field l t fs l.exported
          (fill_field std l (convert std t) (find (field_names l)) d ds
            (convert_fields std fs find ds))
          d (convert_fields std fs find ds)
          (after_find l t fs (convert std t) (find (field_names l)) d ds
            (convert_fields std fs find ds) (convert-Good t) (hf (field_names l)) hd hds
            (convert_fields-Good fs find ds hf hds))
          hd (convert_fields-Good fs find ds hf hds)
