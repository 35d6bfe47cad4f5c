-- ===== src/Logging.antt =====
-- src/unrealsdk/logging.cpp and logging.h: levels and messages, the queue that the logger thread empties,
-- and the built-in logger with its sinks. Strings are lists of their characters; the clock, the
-- formatting of times and numbers and the Windows console are parameters.
pub mod Thread
pub mod Delivery
pub mod Truncate
pub mod Chunks
pub mod ChunkStarts
pub mod Fits
pub mod Sinks
pub mod Init
pub mod Routes
pub mod Levels
mod Tests
use unrealsdk.Base.{
  ℕ, ◌-◌, ◌≡◌, refl, Bool, true, false, if◌then◌else◌, ◌==◌, leb, ltb, ◌&&◌, ◌||◌, Option, none,
  some, List, [], ◌∷◌, Wide, ℤ,
}

-- `Level`, a `uint8_t`.
abbrev pub Level : Type 0
Level = ℕ

abbrev pub invalid : Level
invalid = 0

abbrev pub misc : Level
misc = 1

abbrev pub dev_warning : Level
dev_warning = 2

abbrev pub info : Level
info = 3

abbrev pub warning : Level
warning = 4

abbrev pub error : Level
error = 5

pub record LogMessage : Type 0 where
  pub unix_time_ms : ℕ
  pub level : Level
  pub msg : Wide
  pub location : Wide
  pub line : ℤ
  pub thread_id : ℕ

-- "ERR", "WARN", "INFO", "DWRN" and "MISC"; any other level counts as an error.
unfoldable pub get_level_name : Level → Wide
get_level_name level =
    if level == warning
    then b'W' ∷ b'A' ∷ b'R' ∷ b'N' ∷ []
    else if level == info
    then b'I' ∷ b'N' ∷ b'F' ∷ b'O' ∷ []
    else if level == dev_warning
    then b'D' ∷ b'W' ∷ b'R' ∷ b'N' ∷ []
    else if level == misc
    then b'M' ∷ b'I' ∷ b'S' ∷ b'C' ∷ []
    else b'E' ∷ b'R' ∷ b'R' ∷ []

-- `std::toupper` in the "C" locale.
unfoldable pub to_upper : ℕ → ℕ
to_upper c = if leb b'a' c && leb c b'z' then c - 32 else c

unfoldable pub level_of_char : ℕ → Level
level_of_char c =
    if c == b'E'
    then error
    else if c == b'W'
    then warning
    else if c == b'I'
    then info
    else if c == b'D'
    then dev_warning
    else if c == b'M'
    then misc
    else invalid

unfoldable pub get_level_from_string : Wide → Level
get_level_from_string [] = invalid
get_level_from_string (c ∷ str) = level_of_char (to_upper c)

-- `set_console_level`, from the old level: the new one, and whether the level was in range.
unfoldable pub set_console_level : Level → Level → Level × Bool
set_console_level old level =
    if ltb level misc || ltb error level then (old, false) else (level, true)
