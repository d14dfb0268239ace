-- ===== src/Sqlx.antt =====
-- v2/sql/sqlxw: transactions, the handle that a context gives, and the logging of queries.
pub mod Transactions
pub mod Handles
mod Tests
use go_utility.Base.{
  ℕ, String, Bool, true, false, Option, none, some, List, [], ◌∷◌, ◌++◌, if◌then◌else◌,
}

-- The values put into a context, the last one first: a transaction is told by a number.
pub data Entry : Type 0 where
  tx : ℕ → Entry
  other : Entry

abbrev pub Context : Type 0
Context = List Entry

pub data Outcome (E : Type 0) : Type 0 where
  returned : Option E → Outcome E
  panicked : Outcome E

pub data Error (E : Type 0) : Type 0 where
  begin_failed callback_failed commit_failed : E → Error E

-- `Transaction` returns, with an error or nil, or the callback's panic goes on.
pub data Result (E : Type 0) : Type 0 where
  done : Option (Error E) → Result E
  repanicked : Result E

-- The calls it makes, in their order: the callback is given a context.
pub data Call : Type 0 where
  begin rollback commit : Call
  callback : Context → Call

module _ {E : Type 0} where
  abbrev committed_as : Option E → Option (Error E)
  committed_as none = none
  committed_as (some e) = some (commit_failed e)

  abbrev pub ended : Context → Outcome E → Option E → List Call × Result E
  ended ctx panicked committed = (begin ∷ callback ctx ∷ rollback ∷ [], repanicked)
  ended ctx (returned (some e)) committed =
      (begin ∷ callback ctx ∷ rollback ∷ [], done (some (callback_failed e)))
  ended ctx (returned none) committed =
      (begin ∷ callback ctx ∷ commit ∷ [], done (committed_as committed))

  -- `Transaction`: the database answers `BeginTxx` by `begun`, with the transaction `i`, and `Commit`
  -- by `committed`; the answer to a rollback is dropped.
  unfoldable pub transaction :
      Context → ℕ → Option E → (Context → Outcome E) → Option E → List Call × Result E
  transaction ctx i (some e) fn committed = (begin ∷ [], done (some (begin_failed e)))
  transaction ctx i none fn committed = ended (Entry.tx i ∷ ctx) (fn (Entry.tx i ∷ ctx)) committed

-- What runs queries: the database, a transaction, or either behind `debugWrapper`.
pub data ExtContext : Type 0 where
  database : ExtContext
  transaction_of : ℕ → ExtContext
  debug_wrapper : ExtContext → ExtContext

abbrev pub current_tx : Context → ExtContext
current_tx [] = database
current_tx (Entry.tx i ∷ ctx) = transaction_of i
current_tx (_ ∷ ctx) = current_tx ctx

unfoldable pub get_db : Context → Bool → ExtContext
get_db ctx is_debug = if is_debug then debug_wrapper (current_tx ctx) else current_tx ctx

-- `Debug`
unfoldable pub debug : ExtContext → ExtContext
debug (debug_wrapper db) = debug_wrapper db
debug db = debug_wrapper db

-- The methods of `ExtContext`; the wrapper has the first three of its own.
pub data Method : Type 0 where
  get select exec query queryx query_rowx : Method

abbrev pub is_logged : Method → Bool
is_logged get = true
is_logged select = true
is_logged exec = true
is_logged _ = false

-- A query through a handle: the lines it logs, and what it reaches.
unfoldable pub send : Method → String → ExtContext → List (Method × String) × ExtContext
send m q (debug_wrapper db) =
    let (lines, reached) = send m q db in ((if is_logged m then (m, q) ∷ lines else lines), reached)
send m q db = ([], db)
