-- ===== src/Memory/Offsets.antt =====
-- Relative offsets, and detours.
use unrealsdk.Base.{
  ℕ, ◌+◌, ◌-◌, ◌/◌, ◌%◌, ◌<◌, ◌≤◌, ◌≡◌, ◌≢◌, refl, true, false, if◌then◌else◌, leb, ltb, subst,
  Bool-cases, inl, inr, arith, ◌↔◌,
}
use unrealsdk.Memory.{Bytes, read_uint32, read_int32, read_offset, detour}

-- A 32-bit value stands at an address, little-endian.
unfoldable pub Holds : Bytes → ℕ → ℕ → Type 0
Holds memory address value =
    (memory address ≡ value % 256)
    × (memory (address + 1) ≡ value / 256 % 256)
    × (memory (address + 2) ≡ value / 65536 % 256)
    × (memory (address + 3) ≡ value / 16777216 % 256)

read_int32-Holds :
    (memory : Bytes) (address value : ℕ)
    → value < 4294967296
    → Holds memory address value
    → read_int32 memory address
      ≡ (if ltb value 2147483648 then value else value + 18446744069414584320)
unfolding read_int32 Holds
read_int32-Holds memory address value l (a, b, c, d) = ground arith

-- The distance from the end of the four bytes at an address, in two's complement.
unfoldable pub relative_offset : ℕ → ℕ → ℕ
relative_offset address target =
    if leb (address + 4) target then target - (address + 4) else target + 4294967296 - (address + 4)

offset_forward :
    (address target : ℕ)
    → leb (address + 4) target ≡ true
    → relative_offset address target ≡ target - (address + 4)
unfolding relative_offset
offset_forward address target e = ground arith

offset_backward :
    (address target : ℕ)
    → leb (address + 4) target ≡ false
    → relative_offset address target ≡ target + 4294967296 - (address + 4)
unfolding relative_offset
offset_backward address target e = ground arith

read_positive :
    (memory : Bytes) (address value : ℕ)
    → value < 2147483648
    → Holds memory address value
    → read_int32 memory address ≡ value
read_positive memory address value l h =
    ground (arith, read_int32-Holds memory address value (omega arith) h)

read_negative :
    (memory : Bytes) (address value : ℕ)
    → 2147483648 ≤ value
    → value < 4294967296
    → Holds memory address value
    → read_int32 memory address ≡ value + 18446744069414584320
read_negative memory address value l u h = ground (arith, read_int32-Holds memory address value u h)

-- With 64 bits, an offset that was assembled for a target less than 2 GiB after, or at most 2 GiB before the
-- end of the four bytes that hold it is read back as the target; and a null address gives null.
pub read_offset_target :
    (memory : Bytes) (address target : ℕ)
    → 0 < address
    → address + 4 < 18446744073709551616
    → target < 18446744073709551616
    → target < address + 4 + 2147483648
    → address + 4 ≤ target + 2147483648
    → Holds memory address (relative_offset address target)
    → (read_offset true memory address ≡ target) × (read_offset true memory 0 ≡ 0)
unfolding read_offset
read_offset_target memory address target p a t u v h =
    elim (Bool-cases (leb (address + 4) target)) [
      | inl e ↦
          let forward = subst (Holds memory address) (offset_forward address target e) h in
          (
            ground (
              arith,
              read_positive memory address (target - (address + 4)) (ground arith) forward,
            ),
            refl,
          )
      | inr e ↦
          let backward = subst (Holds memory address) (offset_backward address target e) h in
          (
            ground (
              arith,
              read_negative memory address (target + 4294967296 - (address + 4)) (ground arith)
                  (ground arith) backward,
            ),
            refl,
          )
    ]

-- With 32 bits, the four bytes are the target itself.
pub read_offset_absolute :
    (memory : Bytes) (address target : ℕ)
    → 0 < address
    → target < 4294967296
    → Holds memory address target
    → read_offset false memory address ≡ target
unfolding read_offset read_uint32 Holds
read_offset_absolute memory address target p t (a, b, c, d) = ground arith

-- `detour` succeeds exactly when the address is not null and MinHook both creates and enables the
-- hook.
pub detour_result :
    (create_hook enable_hook : ℕ → ℕ) (address : ℕ)
    → ((detour create_hook enable_hook address).0 ≡ true
        ↔ (address ≢ 0) × (create_hook address ≡ 0) × (enable_hook address ≡ 0))
unfolding detour
detour_result create_hook enable_hook address = ground arith
