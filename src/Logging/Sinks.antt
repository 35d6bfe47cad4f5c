-- ===== src/Logging/Sinks.antt =====
-- `builtin_logger`, the formats of its lines, and `init`. What formats a time, a number in
-- hexadecimal and one in decimal is a parameter, and so is what Windows answers.
use unrealsdk.Base.{
  ℕ, zero, suc, ◌-◌, Bool, false, not, if◌then◌else◌, ◌==◌, leb, ◌||◌, ◌&&◌, Option, none, some,
  List, [], ◌∷◌, ◌++◌, Wide, length, ℤ, pos, negsuc,
}
use unrealsdk.Logging.{
  Level, LogMessage, get_level_name, invalid, warning, error, misc, dev_warning,
}
use unrealsdk.Logging.Truncate.{truncate_leading_chunks}

unfoldable pub spaces : ℕ → Wide
spaces zero = []
spaces (suc n) = b' ' ∷ spaces n

-- `{:>n}` and `{:<n}`.
unfoldable pub align_right : ℕ → Wide → Wide
align_right width text = spaces (width - length text) ++ text

unfoldable pub align_left : ℕ → Wide → Wide
align_left width text = text ++ spaces (width - length text)

-- "\\/:"
abbrev pub location_separators : Wide
location_separators = 92 ∷ b'/' ∷ b':' ∷ []

-- The escape sequences, which the formats only carry.
pub data Colour : Type 0 where
  reset : Colour
  timestamp_colour : Colour
  thread_colour : Colour
  location_colour : Colour
  error_colour : Colour
  warning_colour : Colour
  dev_warning_colour : Colour
  misc_colour : Colour

abbrev pub is_positive : ℤ → Bool
is_positive (pos n) = not (n == 0)
is_positive (negsuc n) = false

unfoldable pub line_colour : LogMessage → Colour
line_colour msg = if is_positive (msg.line) then location_colour else error_colour

-- The colour of `info` is the reset sequence, which any other level gets too.
unfoldable pub level_colour : Level → Colour
level_colour level =
    if level == error
    then error_colour
    else if level == warning
    then warning_colour
    else if level == dev_warning
    then dev_warning_colour
    else if level == misc
    then misc_colour
    else reset

module _ (format_time : ℕ → Wide) (hex : ℕ → Wide) (decimal : ℤ → Wide)
    (escape : Colour → Wide) where
  unfoldable pub timestamp_column : LogMessage → Wide
  timestamp_column msg = align_right 23 (format_time (msg.unix_time_ms)) ++ b'Z' ∷ []

  unfoldable pub location_column : LogMessage → Wide
  location_column msg =
      align_right 50 (truncate_leading_chunks (msg.location) location_separators 50)

  unfoldable pub format_message : LogMessage → Wide
  format_message msg =
      timestamp_column msg
      ++ b' ' ∷ align_right 6 (hex (msg.thread_id))
      ++ b' ' ∷ location_column msg
      ++ b'@' ∷ align_left 4 (decimal (msg.line))
      ++ b' ' ∷ align_right 4 (get_level_name (msg.level))
      ++ b'|' ∷ b' ' ∷ msg.msg
      ++ 10 ∷ []

  unfoldable pub format_colourful_message : LogMessage → Wide
  format_colourful_message msg =
      escape timestamp_colour
      ++ timestamp_column msg
      ++ b' ' ∷ escape thread_colour
      ++ align_right 6 (hex (msg.thread_id))
      ++ b' ' ∷ escape location_colour
      ++ location_column msg
      ++ escape reset
      ++ b'@' ∷ escape (line_colour msg)
      ++ align_left 4 (decimal (msg.line))
      ++ b' ' ∷ escape (level_colour (msg.level))
      ++ align_right 4 (get_level_name (msg.level))
      ++ escape reset
      ++ b'|' ∷ b' ' ∷ escape (level_colour (msg.level))
      ++ msg.msg
      ++ escape reset
      ++ 10 ∷ []

-- The variables that say where messages go; the console and the file are there or not.
pub record Sinks : Type 0 where
  pub unreal_console_level : Level
  pub log_file_stream : Bool
  pub external_console_handle : Bool
  pub external_console_colour : Bool

-- What the built-in logger writes, in order.
pub data Output : Type 0 where
  uconsole_output_text : Wide → Output
  write_file : Wide → Output
  log_file : Wide → Output

module _ (format format_colourful : LogMessage → Wide) where
  unfoldable pub unreal_console_output : Sinks → LogMessage → List Output
  unreal_console_output s msg =
      if not (s.unreal_console_level == invalid) && leb (s.unreal_console_level) (msg.level)
      then uconsole_output_text (msg.msg) ∷ []
      else []

  unfoldable pub external_console_output : Sinks → LogMessage → List Output
  external_console_output s msg =
      if s.external_console_handle
      then if s.external_console_colour
        then write_file (format_colourful msg) ∷ []
        else write_file (format msg) ∷ []
      else []

  unfoldable pub log_file_output : Sinks → LogMessage → List Output
  log_file_output s msg = if s.log_file_stream then log_file (format msg) ∷ [] else []

  unfoldable pub builtin_logger : Sinks → Option LogMessage → List Output
  builtin_logger s none = []
  builtin_logger s (some msg) =
      unreal_console_output s msg
      ++ (if s.external_console_handle || s.log_file_stream
          then external_console_output s msg ++ log_file_output s msg
          else [])
