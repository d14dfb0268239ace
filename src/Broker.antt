-- ===== src/Broker.antt =====
-- v2/brokerw: messages, handlers and their chain, for every broker.
pub mod Producers
pub mod Consumers
pub mod Contract
pub mod Offsets
pub mod Batches
mod Tests
use go_utility.Base.{ℕ, String, Option, none, some, List, [], ◌∷◌, ◌++◌}

-- `Headers` is never set by a consumer of this library, and left out.
pub record Message : Type 0 where
  pub topic : String
  pub key : List ℕ
  pub payload : List ℕ

-- A handler may change the message, which is a pointer, and the state `S` of the program.
abbrev pub Handler : Type 0 → Type 0 → Type 0
Handler S E = Message → S → Option E × Message × S

module _ {S E : Type 0} where
  abbrev pub then_run :
      (Message → S → Option E × Message × S) → Option E × Message × S → Option E × Message × S
  then_run rest (some e, m, s) = (some e, m, s)
  then_run rest (none, m, s) = rest m s

  -- `ExecuteHandlers`: the first error ends the chain.
  unfoldable pub execute_handlers : List (Handler S E) → Message → S → Option E × Message × S
  execute_handlers [] m s = (none, m, s)
  execute_handlers (h ∷ hs) m s = then_run (execute_handlers hs) (h m s)
