-- ===== src/Commands.antt =====
-- src/unrealsdk/commands.cpp: the console commands, and the hooks of game/bl2/console.cpp that run
-- them. The C library's `towlower` and `iswspace` depend on the locale and are parameters.
pub mod Laws
pub mod Lines
pub mod Console
pub mod EngineConsole
pub mod Ring
pub mod Pushed
pub mod History
mod Tests
use unrealsdk.Base.{
  ℕ, suc, ◌+◌, ◌==◌, Bool, true, false, ◌&&◌, ◌||◌, if◌then◌else◌, Option, none, some, List, [],
  ◌∷◌, map, Wide, length, take, drop, is_some, lookup, assign, remove,
}

abbrev pub Commands {ℓ} : Type ℓ → Type ℓ
Commands C = List (Wide × C)

abbrev pub next_line : Wide
next_line = []

-- `std::find_if_not` and `std::find_if`, as the number of characters passed over.
unfoldable pub count_while : (ℕ → Bool) → Wide → ℕ
count_while test [] = 0
count_while test (c ∷ cs) = if test c then suc (count_while test cs) else 0

-- What `run_command` does: nothing, a callback with the line's size and `cmd_len`, or the
-- `std::out_of_range` of `commands.at`.
pub data Ran {ℓ} (C : Type ℓ) : Type ℓ where
  nothing out_of_range : Ran C
  called : C → (line : Wide) → (size cmd_len : ℕ) → Ran C

module _ (iswspace : ℕ → Bool) where
  abbrev pub non_space : Wide → ℕ
  non_space line = count_while iswspace line

  -- The command without the white space before it.
  unfoldable pub command_word : Wide → Wide
  command_word line =
      let rest = drop (non_space line) line in
      take (count_while (λ c. if iswspace c then false else true) rest) rest

  -- `cmd_end - line.begin()`
  unfoldable pub command_end : Wide → ℕ
  command_end line = non_space line + length (command_word line)

module _ (towlower : ℕ → ℕ) where
  unfoldable pub lower : Wide → Wide
  lower = map towlower

  module _ {ℓ} {C : Type ℓ} where
    unfoldable pub add_command : Commands C → Wide → C → Commands C × Bool
    add_command commands cmd callback =
        let lower_cmd = lower cmd in
        if is_some (lookup lower_cmd commands)
        then (commands, false)
        else (assign lower_cmd callback commands, true)

    unfoldable pub has_command : Commands C → Wide → Bool
    has_command commands cmd = is_some (lookup (lower cmd) commands)

    unfoldable pub remove_command : Commands C → Wide → Commands C × Bool
    remove_command commands cmd =
        let lower_cmd = lower cmd in
        if is_some (lookup lower_cmd commands)
        then (remove lower_cmd commands, true)
        else (commands, false)

  module _ {ℓ} {C : Type ℓ} (iswspace : ℕ → Bool) where
    unfoldable pub is_command_valid : Commands C → Wide → Bool → Bool
    is_command_valid commands line direct_user_input =
        if direct_user_input && is_some (lookup next_line commands)
        then true
        else if non_space iswspace line == length line
        then false
        else is_some (lookup (lower (command_word iswspace line)) commands)

    unfoldable pub run_command : Commands C → Wide → Commands C × Ran C
    run_command commands line = elim (lookup next_line commands) [
      | some callback ↦ (remove next_line commands, called callback line (length line) 0)
      | none ↦
          if non_space iswspace line == length line
          then (commands, nothing)
          else elim (lookup (lower (command_word iswspace line)) commands) [
            | none ↦ (commands, out_of_range)
            | some callback ↦
                (commands, called callback line (length line) (command_end iswspace line))
          ]
    ]
