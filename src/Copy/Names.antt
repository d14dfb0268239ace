-- ===== src/Copy/Names.antt =====
-- The names of a field, and the fields that they find.
use go_utility.Base.{
  ℕ, zero, suc, ◌+◌, Bool, false, ◌&&◌, ◌||◌, Option, none, some, List, [], ◌∷◌, ◌++◌, ◌==◌,
  bytes_eq, leb, nat_beq, if◌then◌else◌,
}
use go_utility.Copy.{Label, Value, Record, Entries}

abbrev pub contains : List ℕ → List (List ℕ) → Bool
contains k [] = false
contains k (x ∷ xs) = x == k || contains k xs

-- The text before the first comma.
unfoldable pub tag_head : List ℕ → List ℕ
tag_head [] = []
tag_head (c ∷ tag) = let rest = tag_head tag in if nat_beq c b',' then [] else c ∷ rest

unfoldable pub lower_first : List ℕ → List ℕ
lower_first [] = []
lower_first (c ∷ s) = (if leb b'A' c && leb c b'Z' then c + 32 else c) ∷ s

abbrev pub tag_names : List ℕ → List (List ℕ)
unfolding tag_head
tag_names [] = []
tag_names (c ∷ tag) = if (c ∷ tag) == (b'-' ∷ []) then [] else tag_head (c ∷ tag) ∷ []

-- `fieldNames`
unfoldable pub field_names : Label → List (List ℕ)
unfolding tag_names lower_first
field_names l = tag_names l.db ++ tag_names l.json ++ l.name ∷ lower_first l.name ∷ []

abbrev pub folds_to : (List ℕ → List ℕ → Bool) → List ℕ → List (List ℕ) → Bool
folds_to equal_fold k [] = false
folds_to equal_fold k (c ∷ cs) = equal_fold k c || folds_to equal_fold k cs

module _ {F T : Type 0} where
  -- `indexStructFields`, read at a name: the first field that has it, with its export.
  unfoldable pub field_at : List ℕ → Record F T → Option (Bool × Value F T)
  unfolding field_names
  field_at k Record.end = none
  field_at k (Record.field l v r) =
      if contains k (field_names l) then some (l.exported, v) else field_at k r

  -- The first of the candidates that is a name of the source.
  unfoldable pub find_field : List (List ℕ) → Record F T → Option (Bool × Value F T)
  unfolding field_at
  find_field [] r = none
  find_field (k ∷ ks) r = elim (field_at k r) [ none ↦ find_field ks r | some p ↦ some p ]

  -- The fields of a name at a depth: those of the struct itself, or of structs embedded in it.
  unfoldable mutual
    at_depth : ℕ → List ℕ → Record F T → List (Value F T)
    at_depth d k Record.end = []
    at_depth zero k (Record.field l v r) =
        let rest = at_depth zero k r in if l.name == k then v ∷ rest else rest
    at_depth (suc d) k (Record.field l v r) =
        let promoted = inside d k v in
        let rest = at_depth (suc d) k r in if l.embedded then promoted ++ rest else rest

    inside : ℕ → List ℕ → Value F T → List (Value F T)
    inside d k (Value.struct s r) = at_depth d k r
    inside d k _ = []

  -- As many levels as there are fields, inside and out.
  unfoldable mutual
    levels : Record F T → ℕ
    levels Record.end = 0
    levels (Record.field l v r) = suc (levels_inside v + levels r)

    levels_inside : Value F T → ℕ
    levels_inside (Value.struct s r) = levels r
    levels_inside _ = 0

  -- The field at the first depth that has one, if it is the only one there.
  abbrev shallowest : ℕ → ℕ → List ℕ → Record F T → Option (Value F T)
  unfolding at_depth
  shallowest zero d k r = none
  shallowest (suc n) d k r = elim (at_depth d k r) [
    | [] ↦ shallowest n (suc d) k r
    | v ∷ vs ↦ elim vs [ [] ↦ some v | _ ∷ _ ↦ none ]
  ]

  -- `FieldByName`
  unfoldable pub by_name : List ℕ → Record F T → Option (Value F T)
  unfolding levels shallowest
  by_name k r = shallowest (levels r) 0 k r

  module _ (equal_fold : List ℕ → List ℕ → Bool) where
    -- The first key of the map, in the order of its iteration, that a candidate folds to.
    unfoldable pub find_entry : List (List ℕ) → Entries F T → Option (Value F T)
    find_entry ks Entries.none = none
    find_entry ks (Entries.entry (Value.str n k) v es) =
        if folds_to equal_fold k ks then some v else find_entry ks es
    find_entry ks (Entries.entry _ v es) = find_entry ks es

  -- One round of `indexStructFields`: the names that are new.
  abbrev pub new_names :
      List (List ℕ) → List (List ℕ) → Bool → Value F T → List (List ℕ × Bool × Value F T)
  new_names seen [] exported v = []
  new_names seen (k ∷ ks) exported v =
      let rest = new_names (k ∷ seen) ks exported v in
      if contains k seen then rest else (k, exported, v) ∷ rest

  -- The names of `indexStructFields` in the order of the fields, each with its field.
  unfoldable pub named_fields : List (List ℕ) → Record F T → List (List ℕ × Bool × Value F T)
  unfolding field_names
  named_fields seen Record.end = []
  named_fields seen (Record.field l v r) =
      new_names seen (field_names l) l.exported v ++ named_fields (field_names l ++ seen) r
