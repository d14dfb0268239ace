-- ===== src/Copy/Typing/Loops.antt =====
-- The loops over slices, arrays, maps and fields keep to the target's type.
use go_utility.Base.{ℕ, suc, ◌+◌, false, bytes_eq}
use go_utility.Copy.{Ty, Value, Items}
use go_utility.Copy.Shape.{HasType, HasItems}
use go_utility.Copy.Std.{Failure, Result, ok, failed, panicked}
use go_utility.Copy.Containers.{
  Conversion, map_result, or_keep, convert_items, slice_convert, fill_items, array_convert,
}
use go_utility.Copy.Typing.{IsTyped, Typed, Good}

module _ {F T : Type 0} where
  abbrev pub TypedItems : Ty → Result (Items F T) → Type 0
  TypedItems t (ok vs) = (n : ℕ) × HasItems vs n t
  TypedItems t (failed vs e) = Unit
  TypedItems t panicked = Unit

  items_step :
      (t : Ty) (i : ℕ) (r : Result (Value F T)) (rest : Result (Items F T))
      → Typed t r
      → TypedItems t rest
      → TypedItems t (elim r [
        | panicked ↦ panicked
        | failed a e ↦ failed Items.nil (Failure.slice_index i e)
        | ok a ↦ map_result (Items.cons a) rest
      ])
  items_step t i (ok a) (ok vs) h (n, hs) = (suc n, HasItems.cons h hs)
  items_step t i (ok a) (failed vs e) h hs = tt
  items_step t i (ok a) panicked h hs = tt
  items_step t i (failed a e) rest h hs = tt
  items_step t i panicked rest h hs = tt

  convert_items-Typed :
      (t : Ty) (conv : Conversion F T) (z : Value F T)
      → Good t conv
      → HasType z t
      → (i : ℕ) {vs : Items F T} {n : ℕ} {u : Ty} → HasItems vs n u
      → TypedItems t (convert_items conv z i vs)
  unfolding convert_items
  convert_items-Typed t conv z good hz i HasItems.nil = (0, HasItems.nil)
  convert_items-Typed t conv z good hz i (HasItems.cons {t = u} {v} {vs} h hs) =
      items_step t i (conv false z v) (convert_items conv z (i + 1) vs) (good false z v hz (u, h))
        (convert_items-Typed t conv z good hz (i + 1) hs)

  keep-slice :
      (t : Ty) (dst : Value F T) (r : Result (Items F T))
      → HasType dst (Ty.slice t)
      → TypedItems t r
      → Typed (Ty.slice t) (or_keep dst (Value.slice t) (λ e. e) r)
  keep-slice t dst (ok vs) hd (n, h) = HasType.slice n h
  keep-slice t dst (failed vs e) hd h = hd
  keep-slice t dst panicked hd h = tt

  keep-single :
      (t : Ty) (dst : Value F T) (r : Result (Value F T))
      → HasType dst (Ty.slice t)
      → Typed t r
      → Typed (Ty.slice t) (or_keep dst (λ v. Value.slice t (Items.cons v Items.nil)) (λ e. e) r)
  keep-single t dst (ok v) hd h = HasType.slice 1 (HasItems.cons h HasItems.nil)
  keep-single t dst (failed v e) hd h = hd
  keep-single t dst panicked hd h = tt

  pub slice_convert-Typed :
      (t : Ty) (conv : Conversion F T) (z dst src : Value F T)
      → Good t conv
      → HasType z t
      → HasType dst (Ty.slice t)
      → IsTyped src
      → Typed (Ty.slice t) (slice_convert t z conv dst src)
  unfolding slice_convert
  slice_convert-Typed t conv z dst (Value.slice w vs) good hz hd (u, HasType.slice n hs) =
      keep-slice t dst (convert_items conv z 0 vs) hd (convert_items-Typed t conv z good hz 0 hs)
  slice_convert-Typed t conv z dst (Value.array w vs) good hz hd (u, HasType.array hs) =
      keep-slice t dst (convert_items conv z 0 vs) hd (convert_items-Typed t conv z good hz 0 hs)
  slice_convert-Typed t conv z dst src good hz hd hs =
      keep-single t dst (conv false z src) hd (good false z src hz hs)

  abbrev pub TypedArray : ℕ → Ty → Result (Items F T) → Type 0
  TypedArray n t (ok vs) = HasItems vs n t
  TypedArray n t (failed vs e) = HasItems vs n t
  TypedArray n t panicked = Unit

  fill_step :
      (n : ℕ) (t : Ty) (i : ℕ) (ds : Items F T) (r : Result (Value F T)) (rest : Result (Items F T))
      → HasItems ds n t
      → Typed t r
      → TypedArray n t rest
      → TypedArray (suc n) t (elim r [
        | panicked ↦ panicked
        | failed a e ↦ failed (Items.cons a ds) (Failure.array_index i e)
        | ok a ↦ map_result (Items.cons a) rest
      ])
  fill_step n t i ds (ok a) (ok vs) hd h hs = HasItems.cons h hs
  fill_step n t i ds (ok a) (failed vs e) hd h hs = HasItems.cons h hs
  fill_step n t i ds (ok a) panicked hd h hs = tt
  fill_step n t i ds (failed a e) rest hd h hs = HasItems.cons h hd
  fill_step n t i ds panicked rest hd h hs = tt

  fill_items-Typed :
      (t : Ty) (conv : Conversion F T)
      → Good t conv
      → (i : ℕ) {ds vs : Items F T} {n m : ℕ} {u : Ty} → HasItems ds n t
      → HasItems vs m u
      → TypedArray n t (fill_items conv i ds vs)
  unfolding fill_items
  fill_items-Typed t conv good i HasItems.nil hs = HasItems.nil
  fill_items-Typed t conv good i (HasItems.cons hd hds) HasItems.nil = HasItems.cons hd hds
  fill_items-Typed t conv good i (HasItems.cons {v = d} {vs = ds} {n} hd hds)
        (HasItems.cons {t = u} {v} {vs} h hs) =
      fill_step n t i ds (conv false d v) (fill_items conv (i + 1) ds vs) hds
        (good false d v hd (u, h)) (fill_items-Typed t conv good (i + 1) hds hs)

  as_array :
      (n : ℕ) (t : Ty) (r : Result (Items F T))
      → TypedArray n t r
      → Typed (Ty.array n t) (map_result (Value.array t) r)
  as_array n t (ok vs) h = HasType.array h
  as_array n t (failed vs e) h = HasType.array h
  as_array n t panicked h = tt

  array_into :
      (n : ℕ) (t : Ty) (conv : Conversion F T) (ds : Items F T) (src : Value F T)
      → Good t conv
      → HasItems ds n t
      → IsTyped src
      → Typed (Ty.array n t) (array_convert conv (Value.array t ds) src)
  unfolding array_convert
  array_into n t conv ds (Value.slice x vs) good hd (u, HasType.slice m hs) =
      as_array n t (fill_items conv 0 ds vs) (fill_items-Typed t conv good 0 hd hs)
  array_into n t conv ds (Value.array x vs) good hd (u, HasType.array hs) =
      as_array n t (fill_items conv 0 ds vs) (fill_items-Typed t conv good 0 hd hs)
  array_into n t conv ds src good hd hs = HasType.array hd

  pub array_convert-Typed :
      (n : ℕ) (t : Ty) (conv : Conversion F T) {dst : Value F T} (src : Value F T)
      → Good t conv
      → HasType dst (Ty.array n t)
      → IsTyped src
      → Typed (Ty.array n t) (array_convert conv dst src)
  array_convert-Typed n t conv src good (HasType.array {vs = ds} hd) hs =
      array_into n t conv ds src good hd hs
