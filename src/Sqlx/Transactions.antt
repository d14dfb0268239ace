-- ===== src/Sqlx/Transactions.antt =====
-- sqlxw, `Transaction`: when it commits, what it reports, and what the callback runs in.
use go_utility.Base.{ℕ, ◌≡◌, ◌↔◌, ◌⊎◌, refl, Option, none, some, List, [], ◌∷◌, false, arith}
use go_utility.Sqlx.{
  Entry, Context, Outcome, returned, panicked, Result, done, repanicked, Call, rollback, commit,
  callback, transaction, ended, ExtContext, transaction_of, get_db,
}

-- The calls that end a transaction, and the handles that its callback gets from its context.
abbrev pub ends : List Call → List Call
ends [] = []
ends (rollback ∷ cs) = rollback ∷ ends cs
ends (commit ∷ cs) = commit ∷ ends cs
ends (_ ∷ cs) = ends cs

abbrev pub handles : List Call → List ExtContext
handles [] = []
handles (callback ctx ∷ cs) = get_db ctx false ∷ handles cs
handles (_ ∷ cs) = handles cs

module _ {E : Type 0} where
  -- What the outcome of the callback and the answers of the database decide.
  abbrev pub Decided : Outcome E → Option E → Option E → List Call × Result E → Type 0
  Decided out begun committed result =
      ((ends result.0 ≡ commit ∷ []) ↔ ((begun ≡ none) × (out ≡ returned none)))
      × ((ends result.0 ≡ rollback ∷ [])
          ↔ ((begun ≡ none) × ((out ≡ panicked) ⊎ ((e : E) × (out ≡ returned (some e))))))
      × ((result.1 ≡ done none) ↔ ((begun ≡ none) × (out ≡ returned none) × (committed ≡ none)))
      × ((result.1 ≡ repanicked) ↔ ((begun ≡ none) × (out ≡ panicked)))

  decided :
      (ctx : Context) (out : Outcome E) (committed : Option E)
      → Decided out none committed (ended ctx out committed)
  decided ctx panicked committed = ground arith
  decided ctx (returned (some e)) committed = ground arith
  decided ctx (returned none) none = ground arith
  decided ctx (returned none) (some e) = ground arith

  -- A transaction is committed exactly when it has begun and the callback returns no error, and
  -- rolled back exactly when it has begun and the callback returns an error or panics. `Transaction`
  -- returns no error exactly when the commit was made and succeeded, and goes on with a panic
  -- exactly when the callback panicked.
  pub transaction_lem :
      (ctx : Context) (i : ℕ) (begun committed : Option E) (fn : Context → Outcome E)
      → Decided (fn (Entry.tx i ∷ ctx)) begun committed (transaction ctx i begun fn committed)
  unfolding transaction
  transaction_lem ctx i (some e) committed fn = ground arith
  transaction_lem ctx i none committed fn =
      decided (Entry.tx i ∷ ctx) (fn (Entry.tx i ∷ ctx)) committed

  handles-ended :
      (ctx : Context) (out : Outcome E) (committed : Option E)
      → handles (ended ctx out committed).0 ≡ get_db ctx false ∷ []
  handles-ended ctx panicked committed = refl
  handles-ended ctx (returned (some e)) committed = refl
  handles-ended ctx (returned none) committed = refl

  -- The callback of a transaction that has begun is called once, and gets that transaction from its
  -- context, also when the context had another one.
  pub handles-transaction :
      (ctx : Context) (i : ℕ) (committed : Option E) (fn : Context → Outcome E)
      → handles (transaction ctx i none fn committed).0 ≡ transaction_of i ∷ []
  unfolding transaction get_db
  handles-transaction ctx i committed fn =
      handles-ended (Entry.tx i ∷ ctx) (fn (Entry.tx i ∷ ctx)) committed
