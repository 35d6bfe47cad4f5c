-- ===== src/Memory/PatternText.antt =====
-- src/unrealsdk/memory.h: texts of patterns, and their parsing.
use mathlib.Core.List.{append-nil}
use unrealsdk.Base.{
  ℕ, ◌+◌, ◌-◌, ◌*◌, ◌<◌, ◌≤◌, ◌≡◌, ◌≢◌, refl, sym, ◌∙◌, ap, if◌then◌else◌, ltb, List, [], ◌∷◌, ◌++◌,
  arith, Option, none, some, Wide, length, map,
}
use unrealsdk.Memory.Pattern.{
  Parsing, Pattern, char_to_nibble_and_mask, parse_character, parse_characters, finish, reversed,
  parse_pattern,
}

-- A nibble to match, or any; and a byte as its upper and lower nibble.
abbrev pub Nibble : Type 0
Nibble = Option ℕ

unfoldable pub IsNibble : Nibble → Type 0
IsNibble none = Unit
IsNibble (some x) = x < 16

unfoldable pub AreNibbles : List (Nibble × Nibble) → Type 0
AreNibbles [] = Unit
AreNibbles ((h, l) ∷ ps) = IsNibble h × IsNibble l × AreNibbles ps

unfoldable pub digit : Nibble → ℕ
digit none = b'?'
digit (some x) = if ltb x 10 then b'0' + x else b'A' + (x - 10)

unfoldable pub value_and_mask : Nibble → ℕ × ℕ
value_and_mask none = (0, 0)
value_and_mask (some x) = (x, 15)

unfoldable pub byte_and_mask : Nibble × Nibble → ℕ × ℕ
byte_and_mask (h, l) = (
  16 * (value_and_mask h).0 + (value_and_mask l).0,
  16 * (value_and_mask h).1 + (value_and_mask l).1,
)

unfoldable pub print : List (Nibble × Nibble) → Wide
print [] = []
print ((h, l) ∷ ps) = digit h ∷ digit l ∷ b' ' ∷ print ps

abbrev parsing : List (ℕ × ℕ) → Option (ℕ × ℕ) → Option ℕ → Parsing
parsing filled upper offset = record { filled = filled; upper = upper; offset = offset }

char-digit : (x : Nibble) → IsNibble x → char_to_nibble_and_mask (digit x) ≡ value_and_mask x
unfolding IsNibble digit char_to_nibble_and_mask value_and_mask
char-digit none i = refl
char-digit (some x) i = ground arith

-- A digit is none of the characters that the constructor treats apart.
digit_plain :
    (x : Nibble)
    → IsNibble x
    → (digit x ≢ 0) × (digit x ≢ b' ') × (digit x ≢ b'{') × (digit x ≢ b'}')
unfolding IsNibble digit
digit_plain none i = ground arith
digit_plain (some x) i = ground arith

parse_upper :
    (n : ℕ) (filled : List (ℕ × ℕ)) (offset : Option ℕ) (x : Nibble) (hex : Wide)
    → IsNibble x
    → length filled < n
    → parse_characters n (parsing filled none offset) (digit x ∷ hex)
      ≡ parse_characters n
          (parsing filled (some (16 * (value_and_mask x).0, 16 * (value_and_mask x).1)) offset)
          hex
unfolding parse_characters parse_character
parse_upper n filled offset x hex i l = ground (arith, char-digit x i, digit_plain x i)

parse_lower :
    (n byte mask : ℕ) (filled : List (ℕ × ℕ)) (offset : Option ℕ) (x : Nibble) (hex : Wide)
    → IsNibble x
    → parse_characters n (parsing filled (some (byte, mask)) offset) (digit x ∷ hex)
      ≡ parse_characters n
          (parsing
            ((byte + (value_and_mask x).0, mask + (value_and_mask x).1) ∷ filled)
            none
            offset)
          hex
unfolding parse_characters parse_character
parse_lower n byte mask filled offset x hex i = ground (arith, char-digit x i, digit_plain x i)

parse_space :
    (n : ℕ) (state : Parsing) (hex : Wide)
    → parse_characters n state (b' ' ∷ hex) ≡ parse_characters n state hex
unfolding parse_characters parse_character
parse_space n state hex = refl

parse_brace :
    (n : ℕ) (filled : List (ℕ × ℕ)) (hex : Wide)
    → parse_characters n (parsing filled none none) (b'{' ∷ hex)
      ≡ parse_characters n (parsing filled none (some (length filled))) hex
unfolding parse_characters parse_character
parse_brace n filled hex = refl

parse_byte :
    (n : ℕ) (filled : List (ℕ × ℕ)) (offset : Option ℕ) (h l : Nibble) (hex : Wide)
    → IsNibble h
    → IsNibble l
    → length filled < n
    → parse_characters n (parsing filled none offset) (digit h ∷ digit l ∷ b' ' ∷ hex)
      ≡ parse_characters n (parsing (byte_and_mask (h, l) ∷ filled) none offset) hex
unfolding byte_and_mask
parse_byte n filled offset h l hex ih il room =
    parse_upper n filled offset h (digit l ∷ b' ' ∷ hex) ih room
    ∙ parse_lower n (16 * (value_and_mask h).0) (16 * (value_and_mask h).1) filled offset l
        (b' ' ∷ hex) il
    ∙ parse_space n (parsing (byte_and_mask (h, l) ∷ filled) none offset) hex

-- The bytes of a text, put before those already filled, the last first.
unfoldable pub fill : List (Nibble × Nibble) → List (ℕ × ℕ) → List (ℕ × ℕ)
fill [] filled = filled
fill (p ∷ ps) filled = fill ps (byte_and_mask p ∷ filled)

parse_bytes :
    (n : ℕ) (ps : List (Nibble × Nibble)) (filled : List (ℕ × ℕ)) (offset : Option ℕ) (hex : Wide)
    → AreNibbles ps
    → length filled + length ps ≤ n
    → parse_characters n (parsing filled none offset) (print ps ++ hex)
      ≡ parse_characters n (parsing (fill ps filled) none offset) hex
unfolding print fill AreNibbles
parse_bytes n [] filled offset hex a room = refl
parse_bytes n ((h, l) ∷ ps) filled offset hex (ih, il, a) room =
    parse_byte n filled offset h l (print ps ++ hex) ih il (omega arith)
    ∙ parse_bytes n ps (byte_and_mask (h, l) ∷ filled) offset hex a (omega arith)

length-fill :
    (ps : List (Nibble × Nibble)) (filled : List (ℕ × ℕ))
    → length (fill ps filled) ≡ length ps + length filled
unfolding fill
length-fill [] filled = omega arith
length-fill (p ∷ ps) filled = omega (arith, length-fill ps (byte_and_mask p ∷ filled))

reversed-fill :
    (ps : List (Nibble × Nibble)) (filled ys : List (ℕ × ℕ))
    → reversed (fill ps filled) ys ≡ reversed filled (map byte_and_mask ps ++ ys)
unfolding fill reversed
reversed-fill [] filled ys = refl
reversed-fill (p ∷ ps) filled ys = reversed-fill ps (byte_and_mask p ∷ filled) ys

parse_end : (n : ℕ) (state : Parsing) → parse_characters n state [] ≡ some state
unfolding parse_characters
parse_end n state = refl

finish_filled :
    (n o : ℕ) (filled : List (ℕ × ℕ))
    → length filled ≡ n
    → finish n (parsing filled none (some o)) ≡ some (reversed filled [], o)
unfolding finish
finish_filled n o filled e = ground arith

all_filled :
    (ps qs : List (Nibble × Nibble))
    → reversed (fill qs (fill ps [])) [] ≡ map byte_and_mask ps ++ map byte_and_mask qs
unfolding reversed
all_filled ps qs =
    reversed-fill qs (fill ps []) []
    ∙ ap (reversed (fill ps [])) (append-nil (map byte_and_mask qs))
    ∙ reversed-fill ps [] (map byte_and_mask qs)

-- The two runs of a text and the brace between them are read one after the other.
parse_runs :
    (ps qs : List (Nibble × Nibble))
    → AreNibbles ps
    → AreNibbles qs
    → parse_characters (length ps + length qs) (parsing [] none none) (print ps ++ b'{' ∷ print qs)
      ≡ some (parsing (fill qs (fill ps [])) none (some (length ps)))
parse_runs ps qs a b =
    let n = length ps + length qs in
    let filled = fill ps [] in
    parse_bytes n ps [] none (b'{' ∷ print qs) a (omega arith)
    ∙ parse_brace n filled (print qs)
    ∙ ap (parse_characters n (parsing filled none (some (length filled))))
        (sym (append-nil (print qs)))
    ∙ parse_bytes n qs filled (some (length filled)) [] b (omega (arith, length-fill ps []))
    ∙ parse_end n (parsing (fill qs filled) none (some (length filled)))
    ∙ ap (λ o. some (parsing (fill qs filled) none (some o))) (omega (arith, length-fill ps []))

-- The text of two runs of bytes with a brace between them is read as the pattern of all the bytes,
-- in order, each with its mask, whose offset is where the brace stands.
pub parse_pattern-print :
    (ps qs : List (Nibble × Nibble))
    → AreNibbles ps
    → AreNibbles qs
    → parse_pattern (length ps + length qs) none (print ps ++ b'{' ∷ print qs)
      ≡ some (map byte_and_mask ps ++ map byte_and_mask qs, length ps)
unfolding parse_pattern
parse_pattern-print ps qs a b =
    let n = length ps + length qs in
    ap (λ r. elim r as (λ _. Option Pattern) [ none ↦ none | some state ↦ finish n state ])
      (parse_runs ps qs a b)
    ∙ finish_filled n (length ps) (fill qs (fill ps []))
        (omega (arith, length-fill ps [], length-fill qs (fill ps [])))
    ∙ ap (λ bytes. some (bytes, length ps)) (all_filled ps qs)
