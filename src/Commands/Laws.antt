-- ===== src/Commands/Laws.antt =====
-- The table of commands, and which callback a line reaches.
use unrealsdk.Base.{
  ◌+◌, ◌++◌, is_some, ℕ, ◌≡◌, Bool, true, false, not, ite, none, some, Wide, wide_discrete, length,
  Option-cases, inl, inr, lookup, remove, lookup-assign, lookup-remove, arith,
}
use unrealsdk.Commands.Lines.{IsLine, command_word-IsLine}
use unrealsdk.Commands.{
  out_of_range, Commands, next_line, called, lower, add_command, has_command, remove_command,
  is_command_valid, run_command, command_word, command_end,
}

module _ {ℓ} {C : Type ℓ} (towlower : ℕ → ℕ) (commands : Commands C) where
  -- `add_command` makes the command known in any spelling that lowers to the same text, and returns
  -- whether it was unknown; no other command changes.
  pub has_command-add_command :
      (cmd : Wide) (callback : C)
      → let (after, added) = add_command towlower commands cmd callback in
        ((other : Wide)
          → has_command towlower after other
            ≡ ite
                (wide_discrete (lower towlower cmd) (lower towlower other))
                true
                (has_command towlower commands other))
        × (added ≡ not (has_command towlower commands cmd))
  unfolding add_command has_command
  has_command-add_command cmd callback = (
    λ other.
        ground (arith, lookup-assign (lower towlower cmd) (lower towlower other) callback commands),
    ground arith,
  )

  -- A command that is known keeps its callback.
  pub add_command_twice :
      (cmd : Wide) (callback : C)
      → has_command towlower commands cmd ≡ true
      → add_command towlower commands cmd callback ≡ (commands, false)
  unfolding add_command has_command
  add_command_twice cmd callback e = ground arith

  -- `remove_command` makes the command unknown, and returns whether it was known.
  pub has_command-remove_command :
      (cmd : Wide)
      → let (after, removed) = remove_command towlower commands cmd in
        ((other : Wide)
          → has_command towlower after other
            ≡ ite
                (wide_discrete (lower towlower cmd) (lower towlower other))
                false
                (has_command towlower commands other))
        × (removed ≡ has_command towlower commands cmd)
  unfolding remove_command has_command
  has_command-remove_command cmd = (
    λ other. ground (arith, lookup-remove (lower towlower cmd) (lower towlower other) commands),
    ground arith,
  )

  module _ (iswspace : ℕ → Bool) where
    -- A line that a user typed and that `is_command_valid` accepts reaches a callback.
    pub run_command_direct :
        (line : Wide)
        → is_command_valid towlower iswspace commands line true ≡ true
        → (callback : C) × (cmd_len : ℕ) × ((run_command towlower iswspace commands line).1
            ≡ called callback line (length line) cmd_len)
    unfolding is_command_valid run_command
    run_command_direct line e = elim (Option-cases (lookup next_line commands)) [
      | inr (callback, p) ↦ (callback, 0, ground arith)
      | inl p ↦
          elim (Option-cases (lookup (lower towlower (command_word iswspace line)) commands)) [
            | inr (callback, q) ↦ (callback, command_end iswspace line, ground arith)
            | inl q ↦ absurd (ground arith)
          ]
    ]

    -- The callback for the next line takes any line whole, and is forgotten before it runs.
    pub run_command-next_line :
        (line : Wide) (callback : C)
        → lookup next_line commands ≡ some callback
        → (run_command towlower iswspace commands line
            ≡ (remove next_line commands, called callback line (length line) 0))
          × (has_command towlower (run_command towlower iswspace commands line).0 next_line ≡ false)
    unfolding run_command has_command lower
    run_command-next_line line callback e =
        ground (arith, lookup-remove next_line next_line commands)

    -- With no callback for the next line, a line of white space, a word that is not empty and has none, and
    -- a rest that is empty or starts with white space, is accepted, typed or not, exactly if the lowered
    -- word is a known command. It then reaches that command's callback whole, with the position behind
    -- the word; otherwise `run_command` throws.
    pub run_command_word :
        (spaces word rest : Wide) (direct : Bool)
        → lookup next_line commands ≡ none
        → IsLine iswspace spaces word rest
        → let line = spaces ++ (word ++ rest) in
          (is_command_valid towlower iswspace commands line direct
            ≡ is_some (lookup (lower towlower word) commands))
          × (run_command towlower iswspace commands line ≡ (
            commands,
            elim (lookup (lower towlower word) commands) [
              | none ↦ out_of_range
              | some callback ↦ called callback line (length line) (length spaces + length word)
            ],
          ))
    unfolding is_command_valid run_command
    run_command_word spaces word rest direct e l =
        let (found, end, blank) = command_word-IsLine iswspace spaces word rest l in
        elim (Option-cases (lookup (lower towlower word) commands)) [
          | inr (callback, q) ↦
              (ground (arith, e, found, blank, q), ground (arith, e, found, end, blank, q))
          | inl q ↦ (ground (arith, e, found, blank, q), ground (arith, e, found, end, blank, q))
        ]
