-- ===== src/Logging/Init.antt =====
-- `init`: which sinks the configuration opens, once.
use unrealsdk.Base.{
  ℕ, suc, ◌+◌, ◌&&◌, Bool, true, false, not, if◌then◌else◌, ◌==◌, ◌||◌, Option, none, some, List,
  [], ◌∷◌, ◌++◌, Wide,
}
use unrealsdk.Logging.{Level, get_level_from_string, invalid}
use unrealsdk.Logging.Thread.{LogCallback}
use unrealsdk.Logging.Sinks.{Sinks}

-- What `init` finds: its arguments, the four settings, whether the build is a debug one, and what
-- Windows answers: whether a console was made and has a handle, and whether `ntdll` is there and
-- tells of wine.
pub record Startup : Type 0 where
  pub file : Bool
  pub unreal_console : Bool
  pub console_log_level : Option Wide
  pub external_console : Option Bool
  pub external_console_colour : Option Bool
  pub debug : Bool
  pub console_made : Bool
  pub console_handle : Bool
  pub wine_get_version : Option Bool

-- The errors that `init` logs.
pub data InitError : Type 0 where
  failed_to_get_handle : InitError
  failed_to_initialize : InitError

pub record Process : Type 0 where
  pub initialized : Bool
  pub sinks : Sinks
  pub all_log_callbacks : List LogCallback
  pub errors : List InitError
  pub logger_threads : ℕ
  pub headers_written : ℕ
  pub console_modes_set : ℕ

unfoldable pub value_or : Option Bool → Bool → Bool
value_or none b = b
value_or (some a) b = a

unfoldable pub console_level : Startup → Level → Level
console_level start old =
    if start.unreal_console
    then elim (start.console_log_level) [
      | none ↦ old
      | some config_level_str ↦
          let config_level = get_level_from_string config_level_str in
          if config_level == invalid then old else config_level
    ]
    else invalid

-- Colours are on by default, but not under wine.
unfoldable pub default_colour : Option Bool → Bool
default_colour none = true
default_colour (some wine) = not wine

unfoldable pub wants_external_console : Startup → Bool
wants_external_console start = start.debug || value_or (start.external_console) false

unfoldable pub external_handle : Startup → Bool → Bool
external_handle start old =
    if wants_external_console start
    then if start.console_made then start.console_handle else old
    else old

unfoldable pub external_colour : Startup → Bool → Bool
external_colour start old =
    if wants_external_console start
    then value_or (start.external_console_colour) (default_colour (start.wine_get_version))
    else old

unfoldable pub external_errors : Startup → List InitError
external_errors start =
    if wants_external_console start
    then if start.console_made
      then if start.console_handle then [] else failed_to_get_handle ∷ []
      else failed_to_initialize ∷ []
    else []

unfoldable pub open_sinks : Startup → Sinks → Sinks
open_sinks start s = record {
  unreal_console_level = console_level start (s.unreal_console_level);
  log_file_stream = start.file || s.log_file_stream;
  external_console_handle = external_handle start (s.external_console_handle);
  external_console_colour = external_colour start (s.external_console_colour);
}

-- The header of a new log file, and the console's mode for colours.
unfoldable pub headers : Startup → ℕ
headers start = if start.file then 1 else 0

unfoldable pub console_modes : Startup → Bool → ℕ
console_modes start old = if wants_external_console start && external_colour start old then 1 else 0

-- `init`, which starts the logger thread and adds `builtin_logger` to the callbacks.
unfoldable pub init : LogCallback → Startup → Process → Process
init builtin_logger start p = if p.initialized then p else record {
  initialized = true;
  sinks = open_sinks start (p.sinks);
  all_log_callbacks = p.all_log_callbacks ++ builtin_logger ∷ [];
  errors = p.errors ++ external_errors start;
  logger_threads = suc p.logger_threads;
  headers_written = p.headers_written + headers start;
  console_modes_set = p.console_modes_set + console_modes start (p.sinks.external_console_colour);
}
