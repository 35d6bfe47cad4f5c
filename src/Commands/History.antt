-- ===== src/Commands/History.antt =====
-- src/unrealsdk/game/bl2/console.cpp: the history after a line, and the two command hooks.
use unrealsdk.Commands.Ring.{IsRing, next_bot-HasBot, lines_of, with_line}
use unrealsdk.Commands.Pushed.{pushed_lines}
use unrealsdk.Base.{ℕ, ◌<◌, ◌≡◌, refl, Bool, true, false, some, Wide, arith, lookup, remove, length}
use unrealsdk.Commands.{
  Ran, called, nothing, out_of_range, next_line, is_command_valid, run_command,
}
use unrealsdk.Commands.Console.{
  History, Console, push_history, console_command_hook, pc_console_command_hook,
}

-- When the engine's purge of a line leaves the history a ring, a line typed into the console that is
-- accepted makes it a ring again, whose lines are those the purge left, without the oldest one when
-- there is no room for another, and then the line; the console is at the end of its history. The ring has
-- at least two positions.
pub push_history-IsRing :
    (dim : ℕ) (purge : Wide → History → History) (line : Wide) (h : History)
    → 1 < dim
    → IsRing dim (purge line h)
    → let after = push_history dim purge line h in
      IsRing dim after
      × (lines_of dim after ≡ with_line dim line (lines_of dim (purge line h)))
      × (after.cur ≡ after.top)
unfolding push_history
push_history-IsRing dim purge line h d v =
    let b = purge line h in
    let facts = next_bot-HasBot dim b.top b.bot d v.top_lt v.has_bot in
    (
      record { top_lt = omega arith; has_bot = facts.0 },
      pushed_lines dim line b.entries b.top d v.top_lt b.bot v.has_bot,
      refl,
    )

module _ {C : Type 0} (dim : ℕ) (purge : Wide → History → History) (towlower : ℕ → ℕ)
    (iswspace : ℕ → Bool) (c : Console C) (line : Wide) where
  -- An automated command takes the callback that waits for the next line that the user types,
  -- whenever its own command is known too.
  pub automated_takes_next_line :
      (callback : C)
      → lookup next_line c.commands ≡ some callback
      → is_command_valid towlower iswspace c.commands line false ≡ true
      → pc_console_command_hook dim purge towlower iswspace c line ≡ (
        record c { commands = remove next_line c.commands },
        true,
        called callback line (length line) 0,
      )
  unfolding pc_console_command_hook run_command
  automated_takes_next_line callback e v = ground arith

  -- A callback ran for the whole line.
  abbrev pub RanCallback : Ran C → Type 0
  RanCallback nothing = ⊥
  RanCallback out_of_range = ⊥
  RanCallback (called callback text size cmd_len) = (text ≡ line) × (size ≡ length line)

  -- Neither hook blocks a line without running a callback for it.
  pub blocked_hooks_ran :
      ((console_command_hook dim purge towlower iswspace c line).1 ≡ true
        → RanCallback (console_command_hook dim purge towlower iswspace c line).2)
      × ((pc_console_command_hook dim purge towlower iswspace c line).1 ≡ true
          → RanCallback (pc_console_command_hook dim purge towlower iswspace c line).2)
  unfolding console_command_hook pc_console_command_hook is_command_valid run_command
  blocked_hooks_ran = (λ e. ground arith, λ e. ground arith)
