-- ===== src/Unreal/Elements/Tests.antt =====
-- Arrays of elements at concrete inputs.
use unrealsdk.Base.{
  ℕ, ◌≡◌, refl, Bool, true, false, if◌then◌else◌, ◌==◌, Option, none, some, [], ◌∷◌, arith, inl,
}
use unrealsdk.Unreal.TArray.{TArray, read, resize, with_count}
use unrealsdk.Unreal.TArray.Sizes.{IsTArray, HasCells}
use unrealsdk.Unreal.Elements.{
  invalid_type, index_out_of_range, set_cell, put, write, fill, validate_access, get_at, set_at,
  destroy_at, destroy_range, zero_new, resize_elements, reserve_elements,
}
use unrealsdk.Unreal.Elements.Resizing.{Resized, resize_elements-Resized}
use unrealsdk.Unreal.Elements.Returns.{resize_elements_returns}

abbrev elements : TArray ℕ
elements = record { cells = some (5 ∷ 6 ∷ 7 ∷ 0 ∷ []); count = 3; max = 4 }

elements-IsTArray : IsTArray elements
unfolding IsTArray HasCells
elements-IsTArray = (omega arith, omega arith, refl)

abbrev gives : ℕ → Bool
gives bytes = true

abbrev cleared : ℕ → Option ℕ
cleared v = some 0

-- A destructor that throws on 7.
abbrev picky : ℕ → Option ℕ
picky v = if v == 7 then none else some 0

shrunk_test :
    (resize_elements gives 99 0 4 true cleared 1 elements ≡ record {
      array = record { cells = some (5 ∷ 0 ∷ 0 ∷ 0 ∷ []); count = 1; max = 4 };
      destroyed_elements = some 6 ∷ some 7 ∷ [];
      thrown = false;
    })
    × ((resize_elements gives 99 0 4 true picky 1 elements).array.count ≡ 3)
unfolding resize_elements destroy_range destroy_at read put write set_cell zero_new fill resize
    with_count
shrunk_test = (refl, refl)

access_test :
    ((set_at 1 1 2 8 elements).0.cells ≡ some (5 ∷ 6 ∷ 8 ∷ 0 ∷ []))
    × ((get_at 1 1 3 elements).1 ≡ some index_out_of_range)
    × ((get_at 1 2 0 elements).1 ≡ some invalid_type)
    × (reserve_elements gives 99 0 4 2 elements ≡ none)
unfolding set_at get_at validate_access write put set_cell read reserve_elements
access_test = (refl, refl, refl, refl)

resize_elements-Resized_example :
    Resized 0 6 elements (resize_elements gives 99 0 4 true cleared 6 elements)
resize_elements-Resized_example =
    resize_elements-Resized gives 99 0 4 true cleared 6 elements elements-IsTArray (omega arith)

resize_elements_returns_example :
    (resize_elements gives 99 0 4 true cleared 1 elements).thrown ≡ false
resize_elements_returns_example =
    resize_elements_returns cleared (λ v. (0, refl)) gives 99 0 4 1 elements elements-IsTArray
      (inl (omega arith))
