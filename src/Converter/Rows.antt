-- ===== src/Converter/Rows.antt =====
-- converter.go: what `ConvertRows` appends to a slice of structs.
use go_utility.Base.{
  String, ◌≡◌, refl, sym, ap, ◌∙◌, true, false, Option, none, some, List, [], ◌∷◌, ◌++◌, append-nil,
  append_assoc, map, All,
}
use go_utility.Converter.{
  Reflect, Field, Row, map_to_struct, Element, struct, map_to_reflect_value, Fetched, row,
  unreadable, failure, slice, append_rows, convert_rows,
}
use go_utility.Converter.Fields.{IsGo, IsFine, IsPlain, AllFilled, map_to_struct-AllFilled}

module _ {T V : Type 0} (r : Reflect T V) (go : IsGo r) (tag : String)
    (zero : List (Field T V)) where
  -- Row by row, structs that were filled from the zero value.
  abbrev pub Appended : List (Row V) → List (List (Field T V)) → Type 0
  Appended [] [] = Unit
  Appended (m ∷ ms) (fs ∷ news) = AllFilled r go m tag zero fs × Appended ms news
  Appended _ _ = ⊥

module _ {T V E : Type 0} (r : Reflect T V) (go : IsGo r) (tag : String)
    (zero : List (Field T V)) where
  append_row :
      (m : Row V) (fs : List (Field T V)) (rest : List (Fetched V E)) (slc : List (Element T V))
      → map_to_struct r m tag zero ≡ some fs
      → append_rows r tag (struct zero) (row m ∷ rest) slc
        ≡ append_rows r tag (struct zero) rest (slc ++ struct fs ∷ [])
  unfolding append_rows map_to_reflect_value
  append_row m fs rest slc made = rw (append_rows, map_to_reflect_value, made) refl

  -- The rows `ms`, and then others.
  append_rows-Appended :
      (ms : List (Row V))
      → All (IsFine r) zero
      → All (λ m. All (IsPlain r) m) ms
      → (news : List (List (Field T V))) × Appended r go tag zero ms news
        × ((rest : List (Fetched V E)) (slc : List (Element T V))
            → append_rows r tag (struct zero) (map row ms ++ rest) slc
              ≡ append_rows r tag (struct zero) rest (slc ++ map struct news))
  unfolding append_rows map_to_reflect_value
  append_rows-Appended [] fine plain =
      ([], tt, (λ rest slc. ap (append_rows r tag (struct zero) rest) (sym (append-nil slc))))
  append_rows-Appended (m ∷ ms) fine (here, plain) =
      let (fs, made, filled) = map_to_struct-AllFilled r go m tag zero here fine in
      let (news, appended, same) = append_rows-Appended ms fine plain in
      (
        fs ∷ news,
        (filled, appended),
        (λ rest slc.
            append_row m fs (map row ms ++ rest) slc made
            ∙ same rest (slc ++ struct fs ∷ [])
            ∙ ap (append_rows r tag (struct zero) rest)
                (append_assoc slc (struct fs ∷ []) (map struct news))),
      )

  -- Rows are converted into a slice of structs whose fields can be set, and the rows have no pointers and
  -- only values whose conversions do not panic. The slice keeps what it had, and after it there is a struct
  -- for each row, in their order, made from the zero value: a field with a column under its tag that is not
  -- nil gets that column's value, converted where it has to be and can be, and else the field is as before;
  -- a field that is a pointer gets a new pointer, to that value or to zero. Without an error the rows are closed; when a row cannot
  -- be read, its error is returned, the rows before it stay in the slice, and the rows are not closed.
  pub convert_rows-Appended :
      (scan : Fetched V E → V → V × Option E) (ms : List (Row V)) (e : E)
      (rest : List (Fetched V E)) (slc : List (Element T V))
      → All (IsFine r) zero
      → All (λ m. All (IsPlain r) m) ms
      → (news : List (List (Field T V))) × Appended r go tag zero ms news
        × (convert_rows r tag scan (map row ms) (slice (struct zero) slc)
            ≡ some (slice (struct zero) (slc ++ map struct news), none, true))
        × (convert_rows r tag scan (map row ms ++ unreadable e ∷ rest) (slice (struct zero) slc)
            ≡ some (slice (struct zero) (slc ++ map struct news), some (failure e), false))
  unfolding convert_rows append_rows
  convert_rows-Appended scan ms e rest slc fine plain =
      let (news, appended, same) = append_rows-Appended ms fine plain in
      (
        news,
        appended,
        ap (λ rows. append_rows r tag (struct zero) rows slc) (sym (append-nil (map row ms)))
            ∙ same [] slc,
        same (unreadable e ∷ rest) slc,
      )
