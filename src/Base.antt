-- ===== src/Base.antt =====
-- Names that every module shares: the libraries' names passed on, Boolean tests on the native
-- numbers, lists measured by them, and C++ strings as lists of code units.
mod Tests
mod Lists
mod Names
mod Dict
pub use Tests.*
pub use Lists.*
unfoldable pub use Names.{Wide, wide_discrete}
pub use Names.{ℤ, pos, negsuc}
unfoldable pub use Dict.*
pub use Prim.Native.Nat.{ℕ, zero, suc, ◌+◌, ◌-◌, ◌*◌, ◌/◌, ◌%◌, ◌^◌, ◌≤◌, ◌<◌}
pub use mathlib.Core.Path.{◌≡◌, refl, sym, ap, ◌∙◌, subst, fun_ext}
pub use mathlib.Core.Logic.{◌≢◌, ◌↔◌, ◌⊎◌, inl, inr, ite, if_pos, if_neg}
pub use mathlib.Core.Bool.{Bool, true, false, not, ◌&&◌, ◌||◌}
pub use mathlib.Core.Option.{Option, none, some}
pub use mathlib.Core.List.{List, [], ◌∷◌, ◌++◌, map}
pub use native.Mathlib.Omega.{arith}
unfoldable pub use native.Mathlib.Decide.{ℕ_discrete}
