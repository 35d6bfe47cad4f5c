-- ===== src/Memory/Pattern.antt =====
-- src/unrealsdk/memory.h: a pattern is written in hexadecimal digits, `{` where the offset points, and any
-- other character for a nibble that matches anything.
use unrealsdk.Base.{
  ℕ, ◌+◌, ◌-◌, ◌*◌, if◌then◌else◌, ◌==◌, leb, ltb, ◌&&◌, ◌||◌, List, [], ◌∷◌, Option, none, some,
  Wide, length,
}

unfoldable pub char_to_nibble_and_mask : ℕ → ℕ × ℕ
char_to_nibble_and_mask character =
    if leb b'0' character && leb character b'9'
    then (character - b'0', 15)
    else if leb b'A' character && leb character b'F'
    then (character - b'A' + 10, 15)
    else if leb b'a' character && leb character b'f'
    then (character - b'a' + 10, 15)
    else (0, 0)

-- The constructor's variables: the bytes filled so far with their masks, the last first, whose
-- number is `idx`; the upper nibble of the byte that is half filled, if any; and the offset, `none`
-- for the greatest `ptrdiff_t`.
pub record Parsing : Type 0 where
  pub filled : List (ℕ × ℕ)
  pub upper : Option (ℕ × ℕ)
  pub offset : Option ℕ

-- One pass of the loop, for a pattern of `n` bytes: `none` where the constructor throws, or writes
-- past its arrays, which a `consteval` function cannot.
unfoldable pub parse_character : ℕ → Parsing → ℕ → Option Parsing
parse_character n state character =
    let (nibble, nibble_mask) = char_to_nibble_and_mask character in
    if (character == b' ') || (character == b'}')
    then some state
    else if character == b'{'
    then elim (state.upper) [
      | some u ↦ none
      | none ↦ elim (state.offset) [
        | some o ↦ some state
        | none ↦
            some (record {
              filled = state.filled;
              upper = none;
              offset = some (length (state.filled));
            })
      ]
    ]
    else elim (state.upper) [
      | none ↦
          if ltb (length (state.filled)) n
          then some (record {
            filled = state.filled;
            upper = some (16 * nibble, 16 * nibble_mask);
            offset = state.offset;
          })
          else none
      | some (byte, mask) ↦ some (record {
        filled = (byte + nibble, mask + nibble_mask) ∷ state.filled;
        upper = none;
        offset = state.offset;
      })
    ]

unfoldable pub parse_characters : ℕ → Parsing → Wide → Option Parsing
parse_characters n state [] = some state
parse_characters n state (character ∷ hex) =
    if character == 0 then some state else elim (parse_character n state character) [
      | none ↦ none
      | some after ↦ parse_characters n after hex
    ]

-- The finished pattern: its bytes with their masks, in order, and its offset.
abbrev pub Pattern : Type 0
Pattern = List (ℕ × ℕ) × ℕ

unfoldable pub reversed : List (ℕ × ℕ) → List (ℕ × ℕ) → List (ℕ × ℕ)
reversed [] ys = ys
reversed (x ∷ xs) ys = reversed xs (x ∷ ys)

unfoldable pub finish : ℕ → Parsing → Option Pattern
finish n state = elim (state.upper) [
  | some u ↦ none
  | none ↦
      if length (state.filled) == n
      then elim (state.offset) [
        | none ↦ some (reversed (state.filled) [], 0)
        | some o ↦ some (reversed (state.filled) [], o)
      ]
      else none
]

-- The constructor from a string, with the offset that is passed, if any.
unfoldable pub parse_pattern : ℕ → Option ℕ → Wide → Option Pattern
parse_pattern n offset hex =
    elim (parse_characters n (record { filled = []; upper = none; offset = offset }) hex) [
      | none ↦ none
      | some state ↦ finish n state
    ]
