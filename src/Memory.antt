-- ===== src/Memory.antt =====
-- src/unrealsdk/memory.cpp and memory.h: the search for a byte pattern, detours, and relative offsets.
-- Memory is a function from addresses to bytes; MinHook is a parameter.
pub mod Pattern
pub mod PatternText
pub mod Scan
pub mod MultiScan
pub mod Offsets
mod Tests
use Prim.Native.Nat.{bit_and}
use unrealsdk.Base.{
  ℕ, zero, suc, ◌+◌, ◌-◌, ◌*◌, ◌/◌, ◌%◌, ◌^◌, ◌≡◌, refl, Bool, true, false, if◌then◌else◌, ◌==◌,
  ltb, List, [], ◌∷◌, Wide,
}

-- The bytes in memory, and the two arrays of a pattern.
abbrev pub Bytes : Type 0
Bytes = ℕ → ℕ

module _ (memory bytes mask : Bytes) where
  -- The inner loop, from `j`, with `n` bytes of the pattern left.
  unfoldable pub is_found : ℕ → ℕ → ℕ → Bool
  is_found address j zero = true
  is_found address j (suc n) =
      if bit_and (memory (address + j)) (mask j) == bytes j
      then is_found address (suc j) n
      else false

  -- The outer loop, with `n` positions left.
  unfoldable pub scan_from : ℕ → ℕ → ℕ → ℕ
  scan_from pattern_size address zero = 0
  scan_from pattern_size address (suc n) =
      let rest = scan_from pattern_size (suc address) n in
      if is_found address 0 pattern_size then address else rest

  -- `sigscan`, whose sizes are `size_t` of `w` bits, so that the difference wraps around.
  unfoldable pub sigscan : ℕ → ℕ → ℕ → ℕ → ℕ
  sigscan w pattern_size start size =
      scan_from pattern_size start ((size + 2 ^ w - pattern_size) % 2 ^ w)

-- `int32_t` read at an address, little-endian, as the 64-bit number it is extended to.
unfoldable pub read_int32 : Bytes → ℕ → ℕ
read_int32 memory address =
    let value =
      memory address
      + 256 * memory (address + 1)
      + 65536 * memory (address + 2)
      + 16777216 * memory (address + 3) in
    if ltb value 2147483648 then value else value + 18446744069414584320

-- The four bytes at an address as a number without a sign.
unfoldable pub read_uint32 : Bytes → ℕ → ℕ
read_uint32 memory address =
    memory address
    + 256 * memory (address + 1)
    + 65536 * memory (address + 2)
    + 16777216 * memory (address + 3)

-- `read_offset`, where pointers have 64 bits, or else 32.
unfoldable pub read_offset : Bool → Bytes → ℕ → ℕ
read_offset is_64_bit memory address =
    if address == 0
    then 0
    else if is_64_bit
    then (address + read_int32 memory address + 4) % 18446744073709551616
    else read_uint32 memory address

-- What happens on the way to a detour, in order.
pub data DetourEvent : Type 0 where
  log_null_address : DetourEvent
  created : ℕ → DetourEvent
  log_create_failed : ℕ → DetourEvent
  enabled : ℕ → DetourEvent
  log_enable_failed : ℕ → DetourEvent
  log_detoured : ℕ → DetourEvent

-- `detour`, over MinHook's two calls, which return 0 for `MH_OK`.
unfoldable pub detour : (ℕ → ℕ) → (ℕ → ℕ) → ℕ → Bool × List DetourEvent
detour create_hook enable_hook address =
    if address == 0
    then (false, log_null_address ∷ [])
    else if create_hook address == 0
    then if enable_hook address == 0
      then (true, created address ∷ enabled address ∷ log_detoured address ∷ [])
      else (false, created address ∷ enabled address ∷ log_enable_failed (enable_hook address) ∷ [])
    else (false, created address ∷ log_create_failed (create_hook address) ∷ [])
