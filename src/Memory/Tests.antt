-- ===== src/Memory/Tests.antt =====
-- Scans, patterns, offsets and detours at concrete inputs.
use unrealsdk.Base.{
  true, ◌+◌, ◌-◌, ◌%◌, ◌≡◌, ◌≢◌, refl, if◌then◌else◌, ◌==◌, List, [], ◌∷◌, ◌++◌, arith, none, some,
  length, map,
}
use unrealsdk.Memory.{Bytes, is_found, scan_from, sigscan, read_offset}
use unrealsdk.Memory.Scan.{FirstOf, sigscan_first, sigscan_misses_last}
use unrealsdk.Memory.Offsets.{Holds, relative_offset, read_offset_target}
use unrealsdk.Memory.Pattern.{
  parse_pattern, parse_characters, parse_character, char_to_nibble_and_mask, finish, reversed,
}
use unrealsdk.Memory.PatternText.{
  Nibble, AreNibbles, IsNibble, print, byte_and_mask, parse_pattern-print,
}

-- The byte at address `a` is `a % 256`; the pattern is one byte, 12, and every bit counts.
abbrev memory : Bytes
memory a = a % 256

abbrev bytes : Bytes
bytes j = 12

abbrev mask : Bytes
mask j = 255

-- A range of five bytes that ends at the match does not contain it for the scan, and one of six does.
sigscan_test : (sigscan memory bytes mask 8 1 8 5 ≡ 0) × (sigscan memory bytes mask 8 1 8 6 ≡ 12)
unfolding sigscan scan_from is_found
sigscan_test = (refl, refl)

sigscan_first_example : FirstOf memory bytes mask 1 8 (6 - 1) (sigscan memory bytes mask 8 1 8 6)
sigscan_first_example = sigscan_first memory bytes mask 8 1 8 6 (omega arith) (omega arith)

last_match_test : sigscan memory bytes mask 8 1 8 5 ≢ 8 + (5 - 1)
last_match_test =
    sigscan_misses_last memory bytes mask 8 1 8 5 (omega arith) (omega arith) (omega arith)

-- A jump of 16 bytes forward, assembled at address 4.
abbrev code : Bytes
code a = if a == 4 then 16 else 0

code_Holds : Holds code 4 (relative_offset 4 24)
unfolding Holds relative_offset
code_Holds = (refl, refl, refl, refl)

read_offset_target_example : (read_offset true code 4 ≡ 24) × (read_offset true code 0 ≡ 0)
read_offset_target_example =
    read_offset_target code 4 24 (omega arith) (omega arith) (omega arith) (omega arith)
      (omega arith) code_Holds

abbrev first_bytes : List (Nibble × Nibble)
first_bytes = (some 14, some 8) ∷ []

abbrev last_bytes : List (Nibble × Nibble)
last_bytes = (none, none) ∷ (none, some 3) ∷ []

first_AreNibbles : AreNibbles first_bytes
unfolding AreNibbles IsNibble
first_AreNibbles = (omega arith, omega arith, tt)

last_AreNibbles : AreNibbles last_bytes
unfolding AreNibbles IsNibble
last_AreNibbles = (tt, tt, (tt, omega arith, tt))

-- "E8{??}?3" has the bytes E8, 00 and 03 under the masks FF, 00 and 0F, and points at the second.
parse_pattern_test :
    parse_pattern 3 none (b'E' ∷ b'8' ∷ b'{' ∷ b'?' ∷ b'?' ∷ b'}' ∷ b'?' ∷ b'3' ∷ [])
    ≡ some ((232, 255) ∷ (0, 0) ∷ (3, 15) ∷ [], 1)
unfolding parse_pattern parse_characters parse_character char_to_nibble_and_mask finish reversed
parse_pattern_test = refl

parse_pattern-print_example :
    parse_pattern
      (length first_bytes + length last_bytes)
      none
      (print first_bytes ++ b'{' ∷ print last_bytes)
    ≡ some (map byte_and_mask first_bytes ++ map byte_and_mask last_bytes, length first_bytes)
parse_pattern-print_example =
    parse_pattern-print first_bytes last_bytes first_AreNibbles last_AreNibbles
