-- ===== src/Logging/Levels.antt =====
-- The names of the levels.
use unrealsdk.Base.{
  ℕ, zero, suc, ℕ_discrete, ◌⊎◌, inl, inr, ◌≡◌, ◌≤◌, refl, true, [], ◌∷◌, ◌++◌, Wide, arith,
}
use unrealsdk.Logging.{
  Level, get_level_name, get_level_from_string, level_of_char, to_upper, set_console_level, invalid,
}

name_read :
    (level : Level) (rest : Wide)
    → 1 ≤ level
    → level ≤ 5
    → get_level_from_string (get_level_name level ++ rest) ≡ level
unfolding get_level_from_string get_level_name level_of_char to_upper
name_read zero rest l u = absurd (omega arith)
name_read (suc zero) rest l u = refl
name_read (suc (suc zero)) rest l u = refl
name_read (suc (suc (suc zero))) rest l u = refl
name_read (suc (suc (suc (suc zero)))) rest l u = refl
name_read (suc (suc (suc (suc (suc zero))))) rest l u = refl
name_read (suc (suc (suc (suc (suc (suc n)))))) rest l u = absurd (omega arith)

char_read :
    (old : Level) (c : ℕ)
    → (level_of_char c ≡ invalid)
      ⊎ (set_console_level old (level_of_char c) ≡ (level_of_char c, true))
unfolding level_of_char set_console_level
char_read old c = elim (ℕ_discrete (level_of_char c) invalid) [
  | yes e ↦ inl e
  | no e ↦ inr (ground arith)
]

level_read :
    (old : Level) (str : Wide)
    → (get_level_from_string str ≡ invalid)
      ⊎ (set_console_level old (get_level_from_string str) ≡ (get_level_from_string str, true))
unfolding get_level_from_string
level_read old [] = inl refl
level_read old (c ∷ str) = char_read old (to_upper c)

-- The name of a level that `set_console_level` accepts is parsed as that level, whatever stands after
-- it; every level that is parsed from a text is one it accepts, or invalid.
pub get_level_from_string-get_level_name :
    (old level : Level) (rest str : Wide)
    → (set_console_level old level).1 ≡ true
    → (get_level_from_string (get_level_name level ++ rest) ≡ level)
      × ((get_level_from_string str ≡ invalid)
          ⊎ (set_console_level old (get_level_from_string str) ≡ (get_level_from_string str, true)))
unfolding set_console_level
get_level_from_string-get_level_name old level rest str e =
    (name_read level rest (ground arith) (ground arith), level_read old str)
