-- ===== src/Logging/Routes.antt =====
-- Where the built-in logger sends a message, and what `init` leaves behind.
use unrealsdk.Base.{◌≡◌, ◌≢◌, ◌≤◌, some, [], ◌∷◌, ◌++◌, Wide, arith, ◌⊎◌, ◌↔◌}
use unrealsdk.Logging.{LogMessage, invalid}
use unrealsdk.Logging.Thread.{LogCallback}
use unrealsdk.Logging.Sinks.{
  Sinks, uconsole_output_text, unreal_console_output, external_console_output, log_file_output,
  builtin_logger,
}
use unrealsdk.Logging.Init.{Startup, Process, init}

-- The built-in logger writes to each sink on its own account, in the order console, external
-- console, file; the game's console gets the bare text of the messages at or above its level, and
-- nothing while that level is invalid.
pub builtin_logger_lem :
    (format format_colourful : LogMessage → Wide) (s : Sinks) (msg : LogMessage)
    → (builtin_logger format format_colourful s (some msg)
        ≡ unreal_console_output format format_colourful s msg
          ++ (external_console_output format format_colourful s msg
              ++ log_file_output format format_colourful s msg))
      × ((unreal_console_output format format_colourful s msg ≡ uconsole_output_text (msg.msg) ∷ [])
          ⊎ (unreal_console_output format format_colourful s msg ≡ []))
      × ((unreal_console_output format format_colourful s msg ≡ uconsole_output_text (msg.msg) ∷ [])
          ↔ (s.unreal_console_level ≢ invalid) × (s.unreal_console_level ≤ msg.level))
unfolding builtin_logger unreal_console_output external_console_output log_file_output
builtin_logger_lem format format_colourful s msg = (ground arith, ground arith, ground arith)

-- Only the first call of `init` counts: a second one, with whatever settings, changes neither the
-- sinks, the callbacks, the threads nor what was written.
pub init_once :
    (builtin : LogCallback) (first second : Startup) (p : Process)
    → init builtin second (init builtin first p) ≡ init builtin first p
unfolding init
init_once builtin first second p = ground arith
