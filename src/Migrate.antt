-- ===== src/Migrate.antt =====
-- v2/sql/migratew/migrate.go: the set-up of the migration engine, and how its outcomes are reported.
pub mod Setup
mod Tests
use go_utility.Base.{
  ℕ, String, Bool, true, false, ◌==◌, string_eq, Option, none, some, List, [], ◌∷◌, if◌then◌else◌,
}
use go_utility.Base.Int.{ℤ}
use go_utility.Logw.{Level, info, warn}

-- An option writes to the configuration, which is the name of a schema.
abbrev pub Config : Type 0
Config = String

unfoldable pub with_schema : String → Config → Config
with_schema schema cfg = schema

unfoldable pub configured : List (Config → Config) → Config → Config
configured [] cfg = cfg
configured (opt ∷ opts) cfg = configured opts (opt cfg)

-- The drivers that are set up, with what they are given of the configuration.
pub data Driver : Type 0 where
  postgres : Option String → Driver
  mysql sqlite : Driver

unfoldable pub driver_of : Config → String → Option Driver
driver_of cfg name =
    if name == "postgres"
    then some (postgres (if cfg == "" then none else some cfg))
    else (if name == "mysql" then some mysql else (if name == "sqlite3" then some sqlite else none))

pub data Failure (E : Type 0) : Type 0 where
  no_source no_driver no_engine : E → Failure E
  unsupported : String → Failure E
  up_failed down_failed steps_failed : E → Failure E
  source_close db_close : E → Failure E

-- What `New` gives: an engine over a driver, or an error.
pub data Made (E : Type 0) : Type 0 where
  migrator : Driver → Made E
  not_made : Failure E → Made E

module _ {E : Type 0} where
  -- The steps of `New` after the source is open: the driver and the engine answer by an error or nil.
  abbrev with_driver : (Driver → Option E) → (Driver → Option E) → Driver → Made E
  with_driver instance_of engine_of d = elim (instance_of d) [
    | some e ↦ not_made (no_driver e)
    | none ↦ elim (engine_of d) [ some e ↦ not_made (no_engine e) | none ↦ migrator d ]
  ]

  -- `New`; `source` is the answer for the embedded files.
  unfoldable pub new :
      Option E
      → (Driver → Option E)
      → (Driver → Option E)
      → String
      → List (Config → Config)
      → Made E
  unfolding configured driver_of
  new (some e) instance_of engine_of name opts = not_made (no_source e)
  new none instance_of engine_of name opts = elim (driver_of (configured opts "") name) [
    | none ↦ not_made (unsupported name)
    | some d ↦ with_driver instance_of engine_of d
  ]

-- The errors of the engine: `ErrNoChange`, as `errors.Is` finds it, and others.
pub data EngineError (E : Type 0) : Type 0 where
  no_change : EngineError E
  other : E → EngineError E

-- The engine: a database in a state `S`.
pub record Engine (S E : Type 0) : Type 0 where
  pub up : S → Option (EngineError E) × S
  pub down : S → Option (EngineError E) × S
  pub steps : ℤ → S → Option (EngineError E) × S

module _ {S E : Type 0} (m : Engine S E) where
  abbrev reported : (E → Failure E) → Option (EngineError E) × S → Option (Failure E) × S
  reported wrap (none, s) = (none, s)
  reported wrap (some no_change, s) = (none, s)
  reported wrap (some (other e), s) = (some (wrap e), s)

  -- `Up`, `Down` and `Steps`
  unfoldable pub up : S → Option (Failure E) × S
  up s = reported up_failed (m.up s)

  unfoldable pub down : S → Option (Failure E) × S
  down s = reported down_failed (m.down s)

  unfoldable pub steps : ℤ → S → Option (Failure E) × S
  steps n s = reported steps_failed (m.steps n s)

-- `Close`, given the errors of the source and of the database.
unfoldable pub close : {E : Type 0} → Option E → Option E → Option (Failure E)
close (some e) db = some (source_close e)
close none (some e) = some (db_close e)
close none none = none
