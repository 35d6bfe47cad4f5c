-- ===== src/Base/Names.antt =====
-- A `std::wstring` or a `std::string` is the list of its code units.
use Prim.Native.Nat.{ℕ}
use mathlib.Core.List.{List}
unfoldable use native.Mathlib.Decide.{ℕ_discrete}

abbrev pub Wide : Type 0
Wide = List ℕ

unfoldable pub wide_discrete : Discrete Wide
unfolding ℕ_discrete
wide_discrete = hlevel ℕ_discrete

-- A C++ `int`, where its sign matters.
pub data ℤ : Type 0 where
  pos : ℕ → ℤ
  negsuc : ℕ → ℤ
