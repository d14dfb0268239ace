-- ===== src/Sql.antt =====
-- sqlw/postgres/dml.go: named parameters, and callbacks in a transaction.
pub mod Replace
pub mod Named
pub mod Commit
mod Tests
use go_utility.Base.{
  ℕ, zero, suc, ◌+◌, ◌-◌, Bool, true, false, Option, none, some, List, [], ◌∷◌, ◌++◌, length,
  if◌then◌else◌,
}
use go_utility.Base.Text.{has_prefix, itoa}

-- `strings.ReplaceAll` for an `old` that is not empty. The number counts the bytes of a match that
-- are still to be passed over.
unfoldable pub replace_from : List ℕ → List ℕ → ℕ → List ℕ → List ℕ
replace_from old new skip [] = []
replace_from old new (suc k) (c ∷ s) = replace_from old new k s
replace_from old new zero (c ∷ s) =
    let past = replace_from old new (length old - 1) s in
    let kept = replace_from old new zero s in
    if has_prefix old (c ∷ s) then new ++ past else c ∷ kept

-- `":" + key`, and fmt.Sprintf("$%d", count)
abbrev pub named_mark : List ℕ → List ℕ
named_mark key = b':' ∷ key

abbrev pub numbered_mark : ℕ → List ℕ
numbered_mark count = b'$' ∷ itoa count

-- The loop of `prepareQueryNamed`, in the order of one iteration over the parameters.
unfoldable pub prepare_from : {V : Type 0} → ℕ → List ℕ → List (List ℕ × V) → List ℕ × List V
unfolding replace_from
prepare_from count query [] = (query, [])
prepare_from count query ((key, value) ∷ param) =
    let (result, args) =
      prepare_from (count + 1) (replace_from (named_mark key) (numbered_mark count) 0 query)
        param in
    (result, value ∷ args)

unfoldable pub prepare_query_named : {V : Type 0} → List ℕ → List (List ℕ × V) → List ℕ × List V
unfolding prepare_from
prepare_query_named query param = prepare_from 1 query param

-- What a callback does: it returns, with a result and maybe an error, or it panics.
pub data Outcome (R E : Type 0) : Type 0 where
  returned : R → Option E → Outcome R E
  panicked : Outcome R E

-- The calls on the transaction, in their order.
pub data Call : Type 0 where
  begin callback rollback commit : Call

-- `DoInTransaction`: the calls it makes, its result, nil where none is set, and its error. The
-- database answers `Begin` by `begun`, and the end of the transaction by `rolled` or `committed`.
unfoldable pub do_in_transaction :
    {R E : Type 0} → Option E → Outcome R E → Option E → Option E → List Call × Option R × Option E
do_in_transaction (some e) out rolled committed = (begin ∷ [], none, some e)
do_in_transaction none panicked rolled committed = (begin ∷ callback ∷ rollback ∷ [], none, rolled)
do_in_transaction none (returned r (some e)) rolled committed =
    (begin ∷ callback ∷ rollback ∷ [], some r, elim rolled [ none ↦ some e | some e' ↦ some e' ])
do_in_transaction none (returned r none) rolled committed =
    (begin ∷ callback ∷ commit ∷ [], some r, committed)
