-- ===== src/Commands/Tests.antt =====
-- The commands at concrete inputs, in the ASCII part of the locale.
use unrealsdk.Base.{
  is_some, none, ℕ, ◌+◌, ◌≡◌, refl, Bool, true, false, ◌||◌, ◌&&◌, leb, ◌==◌, if◌then◌else◌, some,
  [], ◌∷◌, ◌++◌, Wide, arith, length, lookup, remove, wide_discrete,
}
use unrealsdk.Commands.{
  out_of_range, Commands, called, next_line, lower, is_command_valid, run_command, command_word,
  command_end, count_while,
}
use unrealsdk.Commands.Laws.{run_command_word}
use unrealsdk.Commands.Lines.{IsLine, line_parts, All, StopsAt}
use unrealsdk.Commands.Console.{History, Console, pc_console_command_hook, push_history}
use unrealsdk.Commands.Ring.{IsRing, lines, entries_from, wrapped, lines_of, with_line}
use unrealsdk.Commands.History.{push_history-IsRing, automated_takes_next_line}

abbrev to_lower : ℕ → ℕ
to_lower c = if leb b'A' c && leb c b'Z' then c + 32 else c

abbrev is_space : ℕ → Bool
is_space c = c == b' ' || c == 9

abbrev cmd_py : Wide
cmd_py = b'P' ∷ b'y' ∷ []

abbrev known : Commands ℕ
known = (b'p' ∷ b'y' ∷ [], 7) ∷ []

abbrev waiting : Commands ℕ
waiting = (next_line, 9) ∷ known

-- " py x"
abbrev line : Wide
line = b' ' ∷ b'p' ∷ b'y' ∷ b' ' ∷ b'x' ∷ []

abbrev callback_seven : ℕ
callback_seven = 7

sample-IsLine : IsLine is_space (b' ' ∷ []) (b'p' ∷ b'y' ∷ []) (b' ' ∷ b'x' ∷ [])
unfolding IsLine
sample-IsLine = ((refl, tt), (refl, (refl, tt)), refl)

run_command_word_example :
    (is_command_valid to_lower is_space known line false
      ≡ is_some (lookup (lower to_lower (b'p' ∷ b'y' ∷ [])) known))
    × (run_command to_lower is_space known line ≡ (
      known,
      elim (lookup (lower to_lower (b'p' ∷ b'y' ∷ [])) known) [
        | none ↦ out_of_range
        | some callback ↦ called callback line (length line) 3
      ],
    ))
unfolding lookup wide_discrete
run_command_word_example =
    run_command_word to_lower known is_space (b' ' ∷ []) (b'p' ∷ b'y' ∷ []) (b' ' ∷ b'x' ∷ []) false
      refl sample-IsLine

line_parts_test :
    (spaces : Wide) × (rest : Wide) × (line ≡ spaces ++ (command_word is_space line ++ rest))
    × All is_space spaces
    × All (λ c. if is_space c then false else true) (command_word is_space line)
    × StopsAt (λ c. if is_space c then false else true) rest
    × (command_end is_space line ≡ length (spaces ++ command_word is_space line))
line_parts_test = line_parts is_space line

line_end : command_end is_space line ≡ 3
unfolding command_end command_word count_while
line_end = refl

abbrev no_purge : Wide → History → History
no_purge l h = h

abbrev history : History
history = record { entries = λ _. []; top = 3; bot = some 0; cur = 3 }

history-IsRing : IsRing 4 history
history-IsRing = record { top_lt = omega arith; has_bot = omega arith }

push_history-IsRing_example :
    IsRing 4 (push_history 4 no_purge line history)
    × (lines_of 4 (push_history 4 no_purge line history) ≡ with_line 4 line (lines_of 4 history))
    × ((push_history 4 no_purge line history).cur ≡ (push_history 4 no_purge line history).top)
push_history-IsRing_example =
    push_history-IsRing 4 no_purge line history (omega arith) history-IsRing

-- A full ring of three lines loses the oldest one.
full_ring_test :
    lines_of 4 (push_history 4 no_purge cmd_py (record history { entries = λ i. i ∷ [] }))
    ≡ (1 ∷ []) ∷ (2 ∷ []) ∷ cmd_py ∷ []
unfolding lines entries_from wrapped push_history
full_ring_test = refl

abbrev console : Console ℕ
console = record { commands = waiting; history = history; output = [] }

automated_line_test :
    pc_console_command_hook 4 no_purge to_lower is_space console line
    ≡ (record console { commands = remove next_line waiting }, true, called 9 line (length line) 0)
unfolding is_command_valid lookup lower command_word count_while wide_discrete
automated_line_test =
    automated_takes_next_line 4 no_purge to_lower is_space console line 9 refl refl
