-- ===== src/Logw.antt =====
-- v2/logw: the identifier of a context, and the set-up of the global logger.
pub mod Ids
mod Tests
use go_utility.Base.{
  ℕ, String, Bool, true, false, ◌&&◌, not, Option, none, some, List, [], ◌∷◌, ◌++◌, ◌==◌, string_eq,
  if◌then◌else◌,
}

-- The values put into a context, the last one first. A nil context is an empty one.
pub data Entry : Type 0 where
  log_id : String → Entry
  other : Entry

abbrev pub Context : Type 0
Context = List Entry

abbrev pub find_log_id : Context → Option String
find_log_id [] = none
find_log_id (Entry.log_id id ∷ ctx) = some id
find_log_id (_ ∷ ctx) = find_log_id ctx

-- `InjectLogID`, given the fresh identifier that uuid makes.
unfoldable pub inject_log_id : String → Context → Context
inject_log_id fresh ctx = elim (find_log_id ctx) [ none ↦ Entry.log_id fresh ∷ ctx | some id ↦ ctx ]

unfoldable pub get_log_id : Context → String
get_log_id ctx = elim (find_log_id ctx) [ none ↦ "" | some id ↦ id ]

-- `BuildLogAttributes`
unfoldable pub build_log_attributes : Context → List (String × String)
unfolding get_log_id
build_log_attributes ctx = if get_log_id ctx == "" then [] else ("x-log-id", get_log_id ctx) ∷ []

pub data Level : Type 0 where
  debug info warn error : Level

pub data Format : Type 0 where
  json text : Format

pub data Writer : Type 0 where
  stdout : Writer
  file : String → Writer
  broker : ℕ → Writer

-- `LogConfig`; a broker's writer is told by a number, `none` where it is nil.
pub record Config : Type 0 where
  pub level : String
  pub format : String
  pub write_to_file : Bool
  pub file_path : String
  pub send_to_broker : Bool
  pub broker_writer : Option ℕ

pub record Logger : Type 0 where
  pub level : Level
  pub format : Format
  pub writers : List Writer

-- The logger of `init`.
abbrev pub default_logger : Logger
default_logger = record { level = Level.info; format = Format.json; writers = stdout ∷ [] }

abbrev pub level_of : String → Level
level_of s =
    if s == "debug"
    then Level.debug
    else (if s == "error" then Level.error else (if s == "warn" then Level.warn else Level.info))

abbrev pub wants_file : Config → Bool
wants_file cfg = cfg.write_to_file && not (cfg.file_path == "")

abbrev pub broker_of : Config → List Writer
broker_of cfg =
    if cfg.send_to_broker
    then (elim (cfg.broker_writer) [ none ↦ [] | some b ↦ broker b ∷ [] ])
    else []

abbrev configured : Config → List Writer → Logger
configured cfg files = record {
  level = level_of cfg.level;
  format = if cfg.format == "TEXT" then Format.text else Format.json;
  writers = stdout ∷ files ++ broker_of cfg;
}

module _ {E : Type 0} where
  -- `Init`: the global logger after it, and its error. `os.OpenFile` answers by `opened`.
  unfoldable pub init : Config → Option E → Logger → Logger × Option E
  init cfg opened current =
      if wants_file cfg
      then (elim opened [
        | some e ↦ (current, some e)
        | none ↦ (configured cfg (file cfg.file_path ∷ []), none)
      ])
      else (configured cfg [], none)

-- A line of the `Ctx` functions: its level, its text and its attributes.
pub record Line : Type 0 where
  pub level : Level
  pub message : String
  pub attributes : List (String × String)

unfoldable pub ctx_log : Level → Context → String → Line
unfolding build_log_attributes
ctx_log level ctx message = record {
  level = level;
  message = message;
  attributes = build_log_attributes ctx;
}
