-- ===== src/Unreal/Strings/Tests.antt =====
-- Strings at concrete inputs.
use unrealsdk.Base.{ℕ, ◌+◌, ◌≤◌, ◌≡◌, refl, Bool, true, none, some, [], ◌∷◌, Wide, length, arith}
use unrealsdk.Unreal.TArray.{
  TArray, grown_capacity, resize, reserve, reserved_cells, allocated, resized, with_count,
  replicate,
}
use unrealsdk.Unreal.Strings.{
  valid_size, copied_over, with_units, strip_null, to_view, filled, construct_string,
  to_view-construct_string,
}

abbrev allocates : ℕ → Bool
allocates bytes = true

abbrev text : Wide
text = b'a' ∷ b'b' ∷ []

-- The code unit after a view is a part of the string, if it is not a null.
following_test :
    elim (construct_string allocates 7 text b'c') as (λ o. Wide) [ none ↦ [] | some a ↦ to_view a ]
    ≡ b'a' ∷ b'b' ∷ b'c' ∷ []
unfolding construct_string valid_size filled with_units copied_over to_view strip_null resize
    reserve reserved_cells allocated resized with_count replicate grown_capacity
following_test = refl

small : grown_capacity (length text + 1) ≤ 2147483647
unfolding grown_capacity
small = omega arith

to_view-construct_string_example :
    (a : TArray ℕ) × (construct_string allocates 7 text 0 ≡ some a) × (to_view a ≡ text)
to_view-construct_string_example =
    to_view-construct_string allocates 7 text small (omega arith) refl
