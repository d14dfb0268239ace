-- ===== src/Tracing/Logger.antt =====
-- loggerw/logger.go. `logrus` is what a line is handed to: its level, its message and its fields.
use go_utility.Base.{
  ℕ, String, Bool, false, ◌||◌, Option, none, some, List, [], ◌∷◌, ◌==◌, string_eq, insert,
  if◌then◌else◌,
}
use go_utility.Base.Int.{ℤ, pos, ltb_ℤ, pos_part}
use go_utility.Base.Text.{codes}
use go_utility.Tracing.{Entry, Context, Field, Fields, get_request_id}
use go_utility.Tracing.Frames.{Frame, has, walk, at_least_one}

abbrev pub with_request_id : Context → String → Context
with_request_id ctx id = Entry.request_id_key id ∷ ctx

-- `fresh` is the identifier that uuid makes.
unfoldable pub ensure_request_id : String → Context → Context × String
ensure_request_id fresh ctx =
    if get_request_id ctx == ""
    then (with_request_id ctx fresh, fresh)
    else (ctx, get_request_id ctx)

pub data Level : Type 0 where
  debug_level info_level warn_level error_level fatal_level print_level : Level

pub data Formatter : Type 0 where
  json text : Formatter

-- Where lines go: to a file, which lumberjack rotates, or to the standard output.
pub data Writer : Type 0 where
  file : String → Writer
  stdout : Writer

pub record Options : Type 0 where
  pub level : String
  pub log_file_path : String
  pub save_to_file : Bool
  pub file_path : String
  pub formatter : String
  pub timestamp_format : String
  pub include_stack : Bool
  pub stack_max_depth : ℤ
  pub console_also : Bool

-- A logger: what its options set up, and the fields of `base`.
pub record Logger : Type 0 where
  pub level : Level
  pub formatter : Formatter
  pub timestamp_format : String
  pub include_stack : Bool
  pub stack_max_depth : ℕ
  pub writers : List Writer
  pub base : Fields

abbrev level_of : String → Level
level_of s =
    if s == "DEBUG"
    then Level.debug_level
    else (if s == "ERROR" then Level.error_level else Level.info_level)

abbrev formatter_of : String → Formatter
formatter_of s = if s == "JSON" then Formatter.json else Formatter.text

abbrev default_options : Options
default_options = record {
  level = "";
  log_file_path = "";
  save_to_file = false;
  file_path = "";
  formatter = "";
  timestamp_format = "";
  include_stack = false;
  stack_max_depth = pos 0;
  console_also = false;
}

abbrev given : Option Options → Options
given none = default_options
given (some o) = o

-- The file that the options ask for, by the new fields or by the older one.
abbrev pub file_of : (String → String) → Options → Option String
file_of trim_space o =
    if o.save_to_file
    then some (if trim_space o.file_path == "" then "app.log" else o.file_path)
    else (if o.log_file_path == "" then none else some o.log_file_path)

abbrev writers_of : Option String → Bool → List Writer
writers_of none console_also = stdout ∷ []
writers_of (some path) console_also = file path ∷ (if console_also then stdout ∷ [] else [])

abbrev stack_depth_of : ℤ → ℕ
stack_depth_of z = if ltb_ℤ (pos 0) z then pos_part z else 6

-- `New`, given `strings.TrimSpace`.
unfoldable pub new : (String → String) → Option Options → Logger
new trim_space option =
    let o = given option in
    record {
      level = level_of o.level;
      formatter = formatter_of o.formatter;
      timestamp_format =
          if o.timestamp_format == ""
          then "2006-01-02T15:04:05.999999999Z07:00"
          else o.timestamp_format;
      include_stack = o.include_stack;
      stack_max_depth = stack_depth_of o.stack_max_depth;
      writers = writers_of (file_of trim_space o) o.console_also;
      base = [];
    }

-- `buildStack`, as the list of its lines.
unfoldable pub build_stack : (Frame → String) → ℕ → List Frame → List String
unfolding walk
build_stack show max frames =
    walk show (λ fr. has (codes "runtime.") fr || has (codes "github.com/sirupsen/logrus") fr) max 0
      (at_least_one frames)

-- `WithField` for each of some fields.
abbrev pub with_fields : Fields → Fields → Fields
with_fields [] e = e
with_fields ((k, v) ∷ extra) e = with_fields extra (insert k v e)

abbrev pub stack_field : Logger → (ℕ → List String) → Fields → Fields
stack_field l stack e =
    if l.include_stack then insert "stack" (Field.stack (stack l.stack_max_depth)) e else e

-- The fields of `entry`; a nil context is an empty one. `stack` is `build_stack` of the frames.
unfoldable pub entry : String → (ℕ → List String) → Context → Fields → Logger → Fields
unfolding ensure_request_id
entry fresh stack ctx extra l =
    let (_, rid) = ensure_request_id fresh ctx in
    with_fields extra (stack_field l stack (insert "request_id" (Field.text rid) l.base))

-- A call of logrus: its level, its message and the entry's fields.
pub record Line : Type 0 where
  pub level : Level
  pub message : String
  pub fields : Fields

-- `Info`, `Debug`, `Warning`, `Fatal`, `Print` and their variants.
unfoldable pub log : Level → String → (ℕ → List String) → Context → String → Logger → Line
unfolding entry
log level fresh stack ctx message l = record {
  level = level;
  message = message;
  fields = entry fresh stack ctx [] l;
}

-- `Error` and `Errorf`, with the error's text; a nil error panics.
unfoldable pub error :
    String → (ℕ → List String) → Context → Option String → String → Logger → Option Line
unfolding entry
error fresh stack ctx none message l = none
error fresh stack ctx (some e) message l = some record {
  level = Level.error_level;
  message = message;
  fields = entry fresh stack ctx (("error", Field.text e) ∷ []) l;
}

-- `With`
unfoldable pub with : String → (ℕ → List String) → Context → Fields → Logger → Logger
unfolding entry
with fresh stack ctx fields l = record {
  level = l.level;
  formatter = l.formatter;
  timestamp_format = l.timestamp_format;
  include_stack = l.include_stack;
  stack_max_depth = l.stack_max_depth;
  writers = l.writers;
  base = entry fresh stack ctx fields l;
}
