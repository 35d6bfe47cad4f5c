-- ===== src/Unreal/Copies/Tests.antt =====
-- Copies and destruction of structs at concrete inputs.
use unrealsdk.Base.{
  ◌+◌, Option, none, some, ◌==◌, if◌then◌else◌, true, ℕ, ◌≡◌, refl, true, false, ◌==◌, List, [],
  ◌∷◌, not, arith, inr,
}
use unrealsdk.Unreal.Copies.{
  StructProperty, element_offset, put_element, copy_element, copy_elements, copy_properties,
  copy_struct, copy_params, destroy_elements, destroy_struct,
}
use unrealsdk.Unreal.Copies.Copying.{
  offsets_before, all_offsets, AllSupported, Misses, AllDistinct, AllBelow, AllSet, AllCopied,
  copy_struct-AllCopied,
}

-- A static array of two elements, and a parameter.
abbrev two_properties : List StructProperty
two_properties =
    (record {
      base_offset = 0;
      element_size = 4;
      dimension = 2;
      is_param = false;
      is_supported = true;
    })
    ∷ (record {
      base_offset = 8;
      element_size = 8;
      dimension = 1;
      is_param = true;
      is_supported = true;
    })
    ∷ []

-- Each address holds its own number.
abbrev numbered : ℕ → ℕ
numbered a = a

abbrev never_fails : ℕ → ℕ → ℕ → Option ℕ
never_fails o value old = none

-- The element at offset 4 throws, once it wrote a part.
abbrev second_fails : ℕ → ℕ → ℕ → Option ℕ
second_fails o value old = if o == 4 then some (old + 1) else none

failed_test :
    ((copy_struct second_fails 100 16 two_properties numbered).1 ≡ true)
    × ((copy_struct second_fails 100 16 two_properties numbered).0 100 ≡ 16)
    × ((copy_struct second_fails 100 16 two_properties numbered).0 104 ≡ 105)
    × ((copy_struct second_fails 100 16 two_properties numbered).0 108 ≡ 108)
unfolding copy_struct copy_properties copy_elements copy_element put_element element_offset
failed_test = (refl, refl, refl, refl)

copied_test :
    ((copy_struct never_fails 100 16 two_properties numbered).0 104 ≡ 20)
    × ((copy_params never_fails 100 16 two_properties numbered).0 104 ≡ 104)
    × ((copy_params never_fails 100 16 two_properties numbered).0 108 ≡ 24)
unfolding copy_struct copy_params copy_properties copy_elements copy_element put_element
    element_offset
copied_test = (refl, refl, refl)

-- An exception at the first element skips the second, and not the next property.
destroyed_test : destroy_struct (λ a. not (a == 100)) 100 two_properties ≡ 108 ∷ []
unfolding destroy_struct destroy_elements element_offset
destroyed_test = refl

two-AllSupported : AllSupported two_properties
unfolding AllSupported
two-AllSupported = (refl, (refl, tt))

two-AllDistinct : AllDistinct (all_offsets two_properties)
unfolding AllDistinct Misses all_offsets offsets_before element_offset
two-AllDistinct = (
  (λ e. absurd (omega arith), (λ e. absurd (omega arith), tt)),
  ((λ e. absurd (omega arith), tt), (tt, tt)),
)

two-AllBelow : AllBelow 16 (all_offsets two_properties)
unfolding AllBelow all_offsets offsets_before element_offset
two-AllBelow = (omega arith, (omega arith, (omega arith, tt)))

two-AllSet : AllSet never_fails 16 numbered (all_offsets two_properties)
unfolding AllSet all_offsets offsets_before
two-AllSet = (λ old. refl, (λ old. refl, (λ old. refl, tt)))

copy_struct-AllCopied_example :
    ((copy_struct never_fails 100 16 two_properties numbered).1 ≡ false)
    × AllCopied 100 16 numbered
        (copy_struct never_fails 100 16 two_properties numbered).0
        (all_offsets two_properties)
copy_struct-AllCopied_example =
    copy_struct-AllCopied 100 16 never_fails 16 (inr (omega arith)) two_properties numbered
      (omega arith) two-AllSupported two-AllDistinct two-AllBelow two-AllSet
