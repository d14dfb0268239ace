-- ===== src/NoSql.antt =====
-- v2/no-sql: the debug switches of redisw, mongow and elasticw, and what each logs around the calls of
-- its client library.
pub mod Redis
pub mod Mongo
pub mod Elastic
pub mod Transparent
mod Tests
use go_utility.Base.{Bool, true, false, ◌||◌, Option, none, some, List, [], ◌∷◌}
use go_utility.Logw.{Level}

pub data Package : Type 0 where
  redisw mongow elasticw : Package

-- What is in a context: the flag under the key of a package, or something else. A nil context is an
-- empty one.
pub data Entry : Type 0 where
  debug : Package → Bool → Entry
  other : Entry

abbrev pub Context : Type 0
Context = List Entry

-- The value under the debug key of a package, which is of a type of its own; false where there is none.
abbrev pub is_debug : Package → Context → Bool
is_debug p [] = false
is_debug redisw (debug redisw flag ∷ ctx) = flag
is_debug mongow (debug mongow flag ∷ ctx) = flag
is_debug elasticw (debug elasticw flag ∷ ctx) = flag
is_debug p (entry ∷ ctx) = is_debug p ctx

-- `DebugContext` of a package.
unfoldable pub debug_context : Package → Context → Context
debug_context p ctx = debug p true ∷ ctx

-- Whether a call is logged, given the switch of the configuration.
unfoldable pub logs : Package → Bool → Context → Bool
logs p global_debug ctx = global_debug || is_debug p ctx

-- A line, with the parts of its text.
pub record Line (T : Type 0) : Type 0 where
  pub level : Level
  pub text : T
