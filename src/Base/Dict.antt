-- ===== src/Base/Dict.antt =====
-- A `std::unordered_map` keyed by text, as the list of its entries.
use mathlib.Core.Path.{◌≡◌, refl}
use mathlib.Core.Logic.{ite}
use mathlib.Core.Bool.{Bool, true, false}
use mathlib.Core.Option.{Option, none, some}
use mathlib.Core.List.{List, [], ◌∷◌}
use native.Mathlib.Omega.{arith}
use unrealsdk.Base.Names.{Wide, wide_discrete}

abbrev pub is_some {ℓ} : {A : Type ℓ} → Option A → Bool
is_some none = false
is_some (some a) = true

module _ {ℓ} {V : Type ℓ} where
  unfoldable pub lookup : Wide → List (Wide × V) → Option V
  lookup k [] = none
  lookup k ((j, v) ∷ m) = ite (wide_discrete j k) (some v) (lookup k m)

  -- `insert_or_assign`, and `emplace` where the key is new.
  unfoldable pub assign : Wide → V → List (Wide × V) → List (Wide × V)
  assign k v [] = (k, v) ∷ []
  assign k v ((j, w) ∷ m) = ite (wide_discrete j k) ((k, v) ∷ m) ((j, w) ∷ assign k v m)

  unfoldable pub remove : Wide → List (Wide × V) → List (Wide × V)
  remove k [] = []
  remove k ((j, v) ∷ m) = ite (wide_discrete j k) (remove k m) ((j, v) ∷ remove k m)

  pub lookup-assign :
      (k j : Wide) (v : V) (m : List (Wide × V))
      → lookup j (assign k v m) ≡ ite (wide_discrete k j) (some v) (lookup j m)
  unfolding lookup assign
  lookup-assign k j v [] = refl
  lookup-assign k j v ((i, w) ∷ m) = ground (arith, lookup-assign k j v m)

  pub lookup-remove :
      (k j : Wide) (m : List (Wide × V))
      → lookup j (remove k m) ≡ ite (wide_discrete k j) none (lookup j m)
  unfolding lookup remove
  lookup-remove k j [] = ground arith
  lookup-remove k j ((i, w) ∷ m) = ground (arith, lookup-remove k j m)
