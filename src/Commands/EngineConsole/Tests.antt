-- ===== src/Commands/EngineConsole/Tests.antt =====
-- The console of the later games at concrete inputs.
use unrealsdk.Base.{ℕ, ◌-◌, ◌<◌, ◌≡◌, ◌≢◌, refl, true, none, some, inl, [], ◌∷◌, get_elem?, arith}
use unrealsdk.Commands.EngineConsole.{HistoryBuffer, update_history, static_uconsole_output_text}
use unrealsdk.Commands.EngineConsole.Entries.{
  IsHistory, update_history-IsHistory, update_history_keeps,
}
use unrealsdk.Commands.EngineConsole.Keys.{
  Injection, none_name, undefine_name, tilde_name, wanted_key, bl3_console_key, bl4_set_key,
  bl1e_console_key, inject_console_hook, is_console_ready, input_settings, other_object, AllOpen,
  inject_console_hook-AllOpen, bl4_set_key_lem, bl1e_console_key-undefine,
}

-- An empty line is printed as a newline.
output_test : static_uconsole_output_text true [] [] ≡ (10 ∷ []) ∷ []
unfolding static_uconsole_output_text
output_test = refl

-- Three lines of one character.
abbrev three_lines : HistoryBuffer
three_lines = record { cells = λ i. i ∷ []; count = 3 }

three_lines-IsHistory : IsHistory three_lines
unfolding IsHistory
three_lines-IsHistory = (omega arith, λ i j l u same. absurd (ground arith))

update_history-IsHistory_example :
    IsHistory (update_history (1 ∷ []) three_lines)
    × ((update_history (1 ∷ []) three_lines).cells ((update_history (1 ∷ []) three_lines).count - 1)
        ≡ 1 ∷ [])
update_history-IsHistory_example =
    update_history-IsHistory three_lines (1 ∷ []) three_lines-IsHistory

kept_test :
    (j : ℕ) × (j < (update_history (1 ∷ []) three_lines).count - 1)
    × ((update_history (1 ∷ []) three_lines).cells j ≡ 2 ∷ [])
kept_test =
    update_history_keeps three_lines (1 ∷ []) 2 (omega arith) (λ same. absurd (ground arith))
      (inl (omega arith))

abbrev before : Injection
before = record {
  inject_hooked = true;
  console = none;
  viewport_console = none;
  target_player = none;
  command_detoured = none;
  objects =
      other_object
      ∷ input_settings (record { console_key = undefine_name; console_keys = [] })
      ∷ [];
}

tilde_named : wanted_key none ≢ none_name
unfolding wanted_key
tilde_named same = absurd (ground arith)

tilde_defined : wanted_key none ≢ undefine_name
unfolding wanted_key
tilde_defined same = absurd (ground arith)

injected_test :
    (is_console_ready (inject_console_hook none 7 9 before) ≡ true)
    × ((inject_console_hook none 7 9 before).console
        ≡ (inject_console_hook none 7 9 before).viewport_console)
    × ((inject_console_hook none 7 9 before).console
        ≡ (inject_console_hook none 7 9 before).command_detoured)
    × AllOpen (inject_console_hook none 7 9 before).objects
injected_test = inject_console_hook-AllOpen none 7 9 before tilde_named tilde_defined

bl4_set_key_lem_test :
    (get_elem? (bl4_set_key (some tilde_name) (none_name ∷ [])) 0 ≡ some tilde_name)
    × (bl4_set_key none (none_name ∷ none_name ∷ []) ≡ none_name ∷ none_name ∷ [])
    × (bl4_set_key none [] ≡ tilde_name ∷ [])
bl4_set_key_lem_test = bl4_set_key_lem tilde_name none_name (none_name ∷ [])

bl1e_console_key_undefine_test :
    (bl1e_console_key (some tilde_name) undefine_name ≡ undefine_name)
    × (bl3_console_key (some tilde_name) undefine_name ≡ wanted_key (some tilde_name))
bl1e_console_key_undefine_test = bl1e_console_key-undefine (some tilde_name)
