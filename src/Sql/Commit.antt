-- ===== src/Sql/Commit.antt =====
-- dml.go, `DoInTransaction`: when the transaction is committed, and what is reported.
use go_utility.Base.{◌≤◌, length, Option, none, some, List, [], ◌∷◌, ◌≡◌, ◌↔◌, ◌⊎◌, arith}
use go_utility.Sql.{
  Outcome, returned, panicked, Call, begin, callback, rollback, commit, do_in_transaction,
}

-- The calls that end a transaction.
abbrev pub ends : List Call → List Call
ends [] = []
ends (begin ∷ cs) = ends cs
ends (callback ∷ cs) = ends cs
ends (rollback ∷ cs) = rollback ∷ ends cs
ends (commit ∷ cs) = commit ∷ ends cs

module _ {R E : Type 0} where
  -- The transaction is committed exactly when it has begun and the callback returns without an
  -- error; one that has begun is ended by one call, a commit or a rollback, and one that has not by
  -- none. No error is reported exactly when a commit was made and succeeded, or when the callback
  -- panicked and the rollback succeeded.
  pub do_in_transaction_lem :
      (begun rolled committed : Option E) (out : Outcome R E)
      → ((ends (do_in_transaction begun out rolled committed).0 ≡ commit ∷ [])
          ↔ ((begun ≡ none) × (r : R) × (out ≡ returned r none)))
        × ((length (ends (do_in_transaction begun out rolled committed).0) ≡ 1) ↔ (begun ≡ none))
        × (length (ends (do_in_transaction begun out rolled committed).0) ≤ 1)
        × (((do_in_transaction begun out rolled committed).2 ≡ none) ↔ (
            (begun ≡ none)
            × ((((r : R) × (out ≡ returned r none)) × (committed ≡ none))
                ⊎ ((out ≡ panicked) × (rolled ≡ none)))))
  unfolding do_in_transaction
  do_in_transaction_lem (some e) rolled committed out = ground arith
  do_in_transaction_lem none rolled committed panicked = ground arith
  do_in_transaction_lem none none committed (returned r (some e)) = ground arith
  do_in_transaction_lem none (some e') committed (returned r (some e)) = ground arith
  do_in_transaction_lem none rolled committed (returned r none) = ground arith
