-- ===== src/Logging/Tests.antt =====
-- The logger at concrete inputs: two callbacks, messages from two threads, and short locations.
use unrealsdk.Base.{
  ◌≡◌, ◌≢◌, ◌≤◌, ◌↔◌, ◌⊎◌, refl, true, false, none, some, List, [], ◌∷◌, ◌++◌, Wide, arith, pos,
}
use unrealsdk.Logging.{Level, LogMessage, info, misc, invalid, set_console_level}
use unrealsdk.Logging.Thread.{
  LogCallback, Logger, logger, delivering, Event, thread_runs, logs, run, step, logger_thread,
  step_at, enqueue_log_msg,
}
use unrealsdk.Logging.Delivery.{
  promised, all_calls, messages, promised-run, Reaches, settled, logger_thread-settles,
}
use unrealsdk.Logging.Truncate.{
  truncate_leading_chunks, next_chunk, start_from, find_first_of, find_first_not_of, find_first,
  is_separator,
}
use unrealsdk.Logging.Fits.{IsTruncated, truncate_leading_chunks_fits}
use unrealsdk.Logging.Sinks.{
  Sinks, builtin_logger, unreal_console_output, external_console_output, log_file_output,
  uconsole_output_text, location_separators,
}
use unrealsdk.Logging.Init.{Startup, Process}
use unrealsdk.Logging.Routes.{builtin_logger_lem}

abbrev some_level : Level
some_level = info

abbrev lower_case : Wide
lower_case = b'w' ∷ b'a' ∷ b'r' ∷ b'n' ∷ []

in_range : (set_console_level misc some_level).1 ≡ true
unfolding set_console_level
in_range = refl

abbrev hello : LogMessage
hello = record {
  unix_time_ms = 5;
  level = info;
  msg = b'h' ∷ [];
  location = b'f' ∷ [];
  line = pos 3;
  thread_id = 1;
}

abbrev callbacks : List LogCallback
callbacks = 10 ∷ 11 ∷ []

-- The thread is about to give its message to the second callback.
abbrev busy : Logger
busy = logger (hello ∷ []) callbacks (delivering hello (11 ∷ [])) ((10, hello) ∷ [])

abbrev events : List Event
events = thread_runs ∷ logs hello ∷ thread_runs ∷ thread_runs ∷ []

run_test :
    run events busy
    ≡ logger (hello ∷ []) callbacks (delivering hello callbacks) ((10, hello) ∷ (11, hello) ∷ [])
unfolding run step logger_thread step_at enqueue_log_msg
run_test = refl

promised-run_example :
    promised (run events busy)
    ≡ promised busy ++ all_calls (busy.all_log_callbacks) (messages events)
promised-run_example = promised-run events busy

logger_thread-settles_example : Reaches busy (settled (busy.all_log_callbacks) (promised busy))
logger_thread-settles_example = logger_thread-settles busy

-- "ab::cd" in four columns.
abbrev location : Wide
location = b'a' ∷ b'b' ∷ b':' ∷ b':' ∷ b'c' ∷ b'd' ∷ []

truncate_test :
    truncate_leading_chunks location location_separators 4 ≡ b'~' ∷ b' ' ∷ b'c' ∷ b'd' ∷ []
unfolding truncate_leading_chunks start_from next_chunk find_first_of find_first_not_of find_first
    is_separator
truncate_test = refl

truncate_leading_chunks_fits_example :
    IsTruncated location_separators location 4
      (truncate_leading_chunks location location_separators 4)
truncate_leading_chunks_fits_example =
    truncate_leading_chunks_fits location location_separators 4 (omega arith)

abbrev sinks : Sinks
sinks = record {
  unreal_console_level = info;
  log_file_stream = true;
  external_console_handle = false;
  external_console_colour = false;
}

abbrev bare : LogMessage → Wide
bare msg = msg.msg

routes_test :
    (builtin_logger bare bare sinks (some hello)
      ≡ unreal_console_output bare bare sinks hello
        ++ (external_console_output bare bare sinks hello ++ log_file_output bare bare sinks hello))
    × ((unreal_console_output bare bare sinks hello ≡ uconsole_output_text (hello.msg) ∷ [])
        ⊎ (unreal_console_output bare bare sinks hello ≡ []))
    × ((unreal_console_output bare bare sinks hello ≡ uconsole_output_text (hello.msg) ∷ [])
        ↔ (sinks.unreal_console_level ≢ invalid) × (sinks.unreal_console_level ≤ hello.level))
routes_test = builtin_logger_lem bare bare sinks hello

abbrev startup : Startup
startup = record {
  file = true;
  unreal_console = false;
  console_log_level = none;
  external_console = some true;
  external_console_colour = none;
  debug = false;
  console_made = true;
  console_handle = true;
  wine_get_version = some true;
}

abbrev process : Process
process = record {
  initialized = false;
  sinks = sinks;
  all_log_callbacks = [];
  errors = [];
  logger_threads = 0;
  headers_written = 0;
  console_modes_set = 0;
}

abbrev builtin : LogCallback
builtin = 1
