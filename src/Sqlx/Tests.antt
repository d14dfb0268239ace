-- ===== src/Sqlx/Tests.antt =====
-- Runs of sqlxw, and an example of each result about it.
use go_utility.Base.{String, true, ◌≡◌, refl, none, [], ◌∷◌}
use go_utility.Sqlx.{
  Entry, Context, Outcome, panicked, repanicked, begin, rollback, callback, transaction,
  transaction_of, get_db, queryx, send,
}
use go_utility.Sqlx.Transactions.{Decided, transaction_lem}

abbrev fails : Context → Outcome String
fails ctx = panicked

panics :
    transaction {E = String} [] 4 none fails none
    ≡ (begin ∷ callback (Entry.tx 4 ∷ []) ∷ rollback ∷ [], repanicked)
unfolding transaction
panics = refl

unlogged : send queryx "SELECT 1" (get_db (Entry.tx 4 ∷ []) true) ≡ ([], transaction_of 4)
unfolding send get_db
unlogged = refl

transaction_lem_example :
    Decided panicked none none (transaction {E = String} (Entry.tx 2 ∷ []) 4 none fails none)
transaction_lem_example = transaction_lem (Entry.tx 2 ∷ []) 4 none none fails
