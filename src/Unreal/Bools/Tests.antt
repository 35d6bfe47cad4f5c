-- ===== src/Unreal/Bools/Tests.antt =====
-- Bools in a bitfield at concrete inputs.
use unrealsdk.Base.{ℕ, ◌≡◌, refl, true, false, inr, arith}
use unrealsdk.Unreal.Bools.{complement, get_bool, set_bitfield, set_bool}
use unrealsdk.Unreal.Bools.Masks.{get_bool-set_bool}

abbrev bitfields : ℕ → ℕ
bitfields a = 5

set_test :
    (set_bool 8 2 0 true bitfields 0 ≡ 7)
    × (set_bool 8 4 0 false bitfields 0 ≡ 1)
    × (set_bool 8 4 0 false bitfields 1 ≡ 5)
unfolding set_bool set_bitfield complement
set_test = (refl, refl, refl)

get_bool-set_bool_example :
    (get_bool 4 0 (set_bool 8 4 0 false bitfields) ≡ false)
    × (get_bool 1 0 (set_bool 8 4 0 false bitfields) ≡ get_bool 1 0 bitfields)
get_bool-set_bool_example =
    get_bool-set_bool 8 4 1 0 0 false bitfields (omega arith) (omega arith)
      (λ e. absurd (omega arith)) (inr refl)
