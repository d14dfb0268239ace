-- ===== src/NoSql/Mongo.antt =====
-- v2/no-sql/mongow/mongo.go: the monitor of commands, and transactions.
use go_utility.Base.{
  Bool, String, ◌||◌, ◌==◌, string_eq, Option, none, some, List, [], ◌∷◌, if◌then◌else◌,
}
use go_utility.Logw.{error, info}
use go_utility.NoSql.{Context, mongow, logs, Line}

-- The events of the driver, with the name of the command.
pub data Event (E : Type 0) : Type 0 where
  started succeeded : String → Event E
  failed : String → E → Event E

pub data Text (E : Type 0) : Type 0 where
  query success : String → Text E
  failure : String → E → Text E

unfoldable pub is_internal_command : String → Bool
is_internal_command name =
    name == "hello"
    || name == "ismaster"
    || name == "saslStart"
    || name == "saslContinue"
    || name == "ping"

module _ {E : Type 0} where
  -- The functions of `buildCommandMonitor`: the lines for an event.
  unfoldable pub monitor : Bool → Context → Event E → List (Line (Text E))
  unfolding is_internal_command logs
  monitor global_debug ctx (started name) =
      if is_internal_command name
      then []
      else (if logs mongow global_debug ctx
          then record { level = info; text = query name } ∷ []
          else [])
  monitor global_debug ctx (succeeded name) =
      if logs mongow global_debug ctx then record { level = info; text = success name } ∷ [] else []
  monitor global_debug ctx (failed name e) =
      if logs mongow global_debug ctx
      then record { level = error; text = failure name e } ∷ []
      else []

-- The errors that `Transaction` returns, and the calls that it makes on a session.
pub data TransactionError (E : Type 0) : Type 0 where
  no_session transaction_failed : E → TransactionError E

pub data SessionCall : Type 0 where
  with_transaction end_session : SessionCall

module _ {S E : Type 0} where
  -- `Transaction`. The driver starts a session by an error or nil, and `run` is its `WithTransaction`,
  -- which decides how often the callback runs and whether it is committed.
  unfoldable pub transaction :
      Option E
      → ((S → Option E × S) → S → Option E × S)
      → (S → Option E × S)
      → S
      → Option (TransactionError E) × List SessionCall × S
  transaction (some e) run fn s = (some (no_session e), [], s)
  transaction none run fn s =
      let (err, s') = run fn s in
      elim err [
        | none ↦ (none, with_transaction ∷ end_session ∷ [], s')
        | some e ↦ (some (transaction_failed e), with_transaction ∷ end_session ∷ [], s')
      ]
