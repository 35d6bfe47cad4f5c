-- ===== src/Unreal/Bools.antt =====
-- src/unrealsdk/unreal/properties/zboolproperty.cpp: a bool is the bits of a bitfield under a mask. The
-- memory holds a bitfield of `w` bits at each address.
pub mod Digits
pub mod Masks
mod Tests
use Prim.Native.Nat.{bit_and, bit_or}
use unrealsdk.Base.{ℕ, ◌-◌, ◌^◌, Bool, not, if◌then◌else◌, ◌==◌}

-- `~mask`
unfoldable pub complement : ℕ → ℕ → ℕ
complement w mask = 2 ^ w - 1 - mask

unfoldable pub get_bool : ℕ → ℕ → (ℕ → ℕ) → Bool
get_bool mask addr memory = not (bit_and (memory addr) mask == 0)

unfoldable pub set_bitfield : ℕ → ℕ → Bool → ℕ → ℕ
set_bitfield w mask value bitfield =
    if value then bit_or bitfield mask else bit_and bitfield (complement w mask)

unfoldable pub set_bool : ℕ → ℕ → ℕ → Bool → (ℕ → ℕ) → ℕ → ℕ
set_bool w mask addr value memory a =
    if a == addr then set_bitfield w mask value (memory addr) else memory a
