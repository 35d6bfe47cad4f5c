-- ===== src/Commands/Console.antt =====
-- game/bl2/console.cpp: the hooks behind the console and behind automated commands. The unreal
-- function `PurgeCommandFromHistory` is the parameter `purge`; what a callback does is not part of
-- the state.
use unrealsdk.Base.{
  ℕ, ◌+◌, ◌%◌, ◌==◌, Bool, true, false, if◌then◌else◌, Option, none, some, List, [], ◌∷◌, ◌++◌,
  Wide,
}
use unrealsdk.Commands.{Commands, Ran, nothing, is_command_valid, run_command}

-- `bot` is none for -1.
pub record History : Type 0 where
  pub entries : ℕ → Wide
  pub top : ℕ
  pub bot : Option ℕ
  pub cur : ℕ

pub record Console (C : Type 0) : Type 0 where
  pub commands : Commands C
  pub history : History
  pub output : List Wide

-- `>>> line <<<`
abbrev pub echo : Wide → Wide
echo line = (b'>' ∷ b'>' ∷ b'>' ∷ b' ' ∷ []) ++ (line ++ (b' ' ∷ b'<' ∷ b'<' ∷ b'<' ∷ []))

module _ (dim : ℕ) where
  abbrev pub next : ℕ → ℕ
  next i = (i + 1) % dim

  unfoldable pub next_bot : Option ℕ → ℕ → Option ℕ
  next_bot none top = some (0 % dim)
  next_bot (some b) top = if b == top then some (next b) else some b

module _ (dim : ℕ) (purge : Wide → History → History) where
  unfoldable pub push_history : Wide → History → History
  unfolding next_bot
  push_history line before =
      let h = purge line before in
      let top = next dim h.top in
      record {
        entries = λ i. if i == h.top then line else h.entries i;
        top = top;
        cur = top;
        bot = next_bot dim h.bot top;
      }

  module _ {C : Type 0} (towlower : ℕ → ℕ) (iswspace : ℕ → Bool) where
    -- The result is whether the unreal function is blocked, and what ran.
    unfoldable pub console_command_hook : Console C → Wide → Console C × Bool × Ran C
    console_command_hook c line =
        if is_command_valid towlower iswspace c.commands line true
        then (let r = run_command towlower iswspace c.commands line in
            (
              record {
                commands = r.0;
                history = push_history line c.history;
                output = c.output ++ echo line ∷ [];
              },
              true,
              r.1,
            ))
        else (c, false, nothing)

    unfoldable pub pc_console_command_hook : Console C → Wide → Console C × Bool × Ran C
    pc_console_command_hook c line =
        if is_command_valid towlower iswspace c.commands line false
        then (let r = run_command towlower iswspace c.commands line in
            (record c { commands = r.0 }, true, r.1))
        else (c, false, nothing)
