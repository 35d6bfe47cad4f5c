-- ===== src/Logging/Truncate.antt =====
-- `truncate_leading_chunks`: how a location is shortened from the left to a column's width.
use unrealsdk.Base.{
  ℕ, zero, suc, ◌-◌, Bool, false, not, if◌then◌else◌, ◌==◌, leb, ◌||◌, Option, none, some, [], ◌∷◌,
  ◌++◌, Wide, length, drop,
}

-- "~ "
abbrev pub truncation_prefix : Wide
truncation_prefix = b'~' ∷ b' ' ∷ []

unfoldable pub is_separator : Wide → ℕ → Bool
is_separator [] c = false
is_separator (s ∷ separators) c = (s == c) || is_separator separators c

-- The position from `pos` on of the first character that a test accepts.
unfoldable pub find_first : (ℕ → Bool) → Wide → ℕ → Option ℕ
find_first test [] pos = none
find_first test (c ∷ str) pos =
    let rest = find_first test str (suc pos) in if test c then some pos else rest

unfoldable pub find_first_of : Wide → Wide → ℕ → Option ℕ
find_first_of separators str pos = find_first (is_separator separators) (drop pos str) pos

unfoldable pub find_first_not_of : Wide → Wide → ℕ → Option ℕ
find_first_not_of separators str pos =
    find_first (λ c. not (is_separator separators c)) (drop pos str) pos

-- Where the chunk after the next separators begins.
unfoldable pub next_chunk : Wide → Wide → ℕ → Option ℕ
next_chunk separators str start_pos = elim (find_first_of separators str start_pos) [
  | none ↦ none
  | some next_separator_char ↦ find_first_not_of separators str next_separator_char
]

-- The loop, with `fuel` rounds left: where the text that is kept begins.
unfoldable pub start_from : ℕ → Wide → Wide → ℕ → ℕ → ℕ → ℕ
start_from zero separators str max_width width start_pos = start_pos
start_from (suc fuel) separators str max_width width start_pos =
    if leb width max_width then start_pos else elim (next_chunk separators str start_pos) [
      | none ↦ start_pos
      | some next_regular_char ↦
          start_from fuel separators str
            (if start_pos == 0 then max_width - length truncation_prefix else max_width)
            (width - (next_regular_char - start_pos)) next_regular_char
    ]

-- The width is at least the prefix's: the difference of the two does not wrap around.
unfoldable pub truncate_leading_chunks : Wide → Wide → ℕ → Wide
truncate_leading_chunks str separators max_width =
    let start_pos = start_from (length str) separators str max_width (length str) 0 in
    if start_pos == 0 then str else truncation_prefix ++ drop start_pos str
