-- ===== src/Commands/EngineConsole.antt =====
-- game/bl3/console.cpp and game/bl4/console.cpp: the console of the later games, whose history is an
-- array with the newest line last, and the keys that open a console, with game/bl1e/console.cpp.
pub mod Entries
pub mod Keys
mod Tests
use unrealsdk.Base.{
  ℕ, zero, suc, ◌+◌, ◌-◌, ◌≡◌, Bool, true, false, ◌&&◌, not, if◌then◌else◌, ◌==◌, ltb, leb, Option,
  none, some, List, [], ◌∷◌, ◌++◌, Wide, wide_discrete, ite,
}
use unrealsdk.Commands.{Commands, Ran, nothing, is_command_valid, run_command}
use unrealsdk.Commands.Console.{echo}

-- `MAX_HISTORY_ENTRIES`
abbrev pub max_history_entries : ℕ
max_history_entries = 50

-- The array of strings, oldest first. The cells after the first `count` are whatever is in memory.
pub record HistoryBuffer : Type 0 where
  pub cells : ℕ → Wide
  pub count : ℕ

-- The loop that looks for the line, from `i`, with `n` entries left: its last index.
unfoldable pub matching_index : (ℕ → Wide) → Wide → ℕ → ℕ → ℕ → ℕ
matching_index cells line i zero found = found
matching_index cells line i (suc n) found =
    matching_index cells line (suc i) n (ite (wide_discrete (cells i) line) i found)

-- `memmove` of `remaining` cells, to `dropped` from the cell after it.
unfoldable pub moved_down : (ℕ → Wide) → ℕ → ℕ → ℕ → Wide
moved_down cells dropped remaining i =
    if leb dropped i && ltb i (dropped + remaining) then cells (suc i) else cells i

-- `destroy_at` leaves an empty string.
unfoldable pub destroyed : (ℕ → Wide) → ℕ → ℕ → Wide
destroyed cells dropped i = if i == dropped then [] else cells i

-- The array without the entry at `dropped`, where the count is not changed yet.
unfoldable pub drop_entry : HistoryBuffer → ℕ → ℕ → Wide
drop_entry h dropped =
    if dropped == h.count - 1
    then destroyed h.cells dropped
    else moved_down (destroyed h.cells dropped) dropped (h.count - dropped)

-- `set_at` on the last entry, after `resize`.
unfoldable pub with_last : (ℕ → Wide) → ℕ → Wide → HistoryBuffer
with_last cells size line = record {
  cells = λ i. if i == size then line else cells i;
  count = size + 1;
}

-- The index of the entry that makes room, if one has to.
unfoldable pub dropped_index : HistoryBuffer → Wide → Option ℕ
dropped_index h line =
    let matching = matching_index h.cells line 0 h.count h.count in
    if matching == h.count
    then (if leb max_history_entries h.count then some 0 else none)
    else some matching

-- The update of the history buffer by a line.
unfoldable pub update_history : Wide → HistoryBuffer → HistoryBuffer
update_history line h = elim (dropped_index h line) [
  | none ↦ with_last h.cells h.count line
  | some dropped ↦ with_last (drop_entry h dropped) (h.count - 1) line
]

-- What is given to `UConsole::OutputText`, in order.
unfoldable pub static_uconsole_output_text : Bool → Wide → List Wide → List Wide
static_uconsole_output_text has_console str output =
    if has_console then (output ++ (elim str [ [] ↦ 10 ∷ [] | c ∷ cs ↦ c ∷ cs ]) ∷ []) else output

pub record EngineConsole (C : Type 0) : Type 0 where
  pub commands : Commands C
  pub history : HistoryBuffer
  pub output : List Wide

-- Whether the line was handled here, and what ran, or whether the engine's function was called.
pub data Handled (C : Type 0) : Type 0 where
  handled : Ran C → Handled C
  original : Handled C

module _ {C : Type 0} (towlower : ℕ → ℕ) (iswspace : ℕ → Bool) where
  -- The hook where `throws` says that the history buffer cannot be read. An exception in a command is
  -- logged, and the line is handled all the same.
  unfoldable pub engine_console_command_hook :
      Bool → EngineConsole C → Wide → EngineConsole C × Handled C
  engine_console_command_hook throws c line =
      if is_command_valid towlower iswspace c.commands line true
      then (if throws
          then (c, original)
          else (let r = run_command towlower iswspace c.commands line in
              (
                record {
                  commands = r.0;
                  history = update_history line c.history;
                  output = static_uconsole_output_text true (echo line) c.output;
                },
                handled r.1,
              )))
      else (c, original)
