-- ===== src/Unreal/Elements.antt =====
-- src/unrealsdk/unreal/wrappers/wrapped_array.cpp and wrapped_array.h: the operations on an array that
-- know the class of its elements. A cell holds the value of an element; `destroy` is what the class's
-- `PropTraits::destroy` leaves in a cell, or none where it throws.
pub mod Cells
pub mod Resizing
pub mod Returns
mod Tests
use unrealsdk.Base.{
  ℕ, zero, suc, ◌+◌, ◌-◌, ◌≡◌, Bool, true, false, not, if◌then◌else◌, ◌==◌, leb, ltb, Option, none,
  some, List, [], ◌∷◌,
}
use unrealsdk.Unreal.TArray.{TArray, ArrayError, reserve, resize, read}

module _ {V : Type 0} where
  unfoldable pub set_cell : ℕ → V → List V → List V
  set_cell i v [] = []
  set_cell zero v (c ∷ cells) = v ∷ cells
  set_cell (suc i) v (c ∷ cells) = c ∷ set_cell i v cells

  -- A write to an element's address.
  unfoldable pub put : ℕ → V → Option (List V) → Option (List V)
  put i v none = none
  put i v (some cells) = some (set_cell i v cells)

  unfoldable pub write : ℕ → V → TArray V → TArray V
  write i v a = record { cells = put i v a.cells; count = a.count; max = a.max }

  -- The `memset` of `n` elements from an index on.
  unfoldable pub fill : V → ℕ → ℕ → TArray V → TArray V
  fill zeroed zero i a = a
  fill zeroed (suc n) i a = fill zeroed n (suc i) (write i zeroed a)

pub data AccessError : Type 0 where
  invalid_type : AccessError
  index_out_of_range : AccessError

-- `validate_access`, for the class of the elements and the class that is expected.
unfoldable pub validate_access : {V : Type 0} → ℕ → ℕ → ℕ → TArray V → Option AccessError
validate_access element_class expected idx a =
    if element_class == expected
    then (if leb a.count idx then some index_out_of_range else none)
    else some invalid_type

module _ {V : Type 0} (element_class : ℕ) where
  -- The element at an index; none in the result is memory that cannot be read.
  unfoldable pub get_at : ℕ → ℕ → TArray V → Option V × Option AccessError
  get_at expected idx a = elim (validate_access element_class expected idx a) [
    | none ↦ (read a.cells idx, none)
    | some e ↦ (none, some e)
  ]

  unfoldable pub set_at : ℕ → ℕ → V → TArray V → TArray V × Option AccessError
  set_at expected idx v a = elim (validate_access element_class expected idx a) [
    | none ↦ (write idx v a, none)
    | some e ↦ (a, some e)
  ]

-- An array, the elements that were destroyed, in order, and whether an exception was thrown.
pub record ResizeOutcome (V : Type 0) : Type 0 where
  pub array : TArray V
  pub destroyed_elements : List (Option V)
  pub thrown : Bool

module _ {V : Type 0} (destroy : V → Option V) where
  -- `destroy_at`, whose index is below the count in `resize`, or none where it throws.
  unfoldable pub destroy_at : ℕ → TArray V → Option (TArray V)
  destroy_at idx a = elim (read a.cells idx) [
    | none ↦ none
    | some v ↦ elim (destroy v) [ none ↦ none | some left ↦ some (write idx left a) ]
  ]

  -- The loop over the dropped elements, from an index, with `n` left.
  unfoldable pub destroy_range : ℕ → ℕ → TArray V → ResizeOutcome V
  destroy_range zero idx a = record { array = a; destroyed_elements = []; thrown = false }
  destroy_range (suc n) idx a = elim (destroy_at idx a) [
    | none ↦ record { array = a; destroyed_elements = []; thrown = true }
    | some b ↦
        let rest = destroy_range n (suc idx) b in
        record {
          array = rest.array;
          destroyed_elements = read a.cells idx ∷ rest.destroyed_elements;
          thrown = rest.thrown;
        }
  ]

module _ {V : Type 0} (allocates : ℕ → Bool) (junk zeroed : V) (element_size : ℕ) where
  -- `resize` from the array's own `resize` on.
  unfoldable pub zero_new : ℕ → ℕ → List (Option V) → TArray V × Option ArrayError → ResizeOutcome V
  zero_new old_size new_size destroyed_elements (a, some e) = record {
    array = a;
    destroyed_elements = destroyed_elements;
    thrown = true;
  }
  zero_new old_size new_size destroyed_elements (a, none) = record {
    array = fill zeroed (new_size - old_size) old_size a;
    destroyed_elements = destroyed_elements;
    thrown = false;
  }

  -- `is_supported` is whether `cast` knows the class of the elements; it throws otherwise.
  unfoldable pub resize_elements : Bool → (V → Option V) → ℕ → TArray V → ResizeOutcome V
  resize_elements is_supported destroy new_size a =
      let dropped = destroy_range destroy (a.count - new_size) new_size a in
      if not is_supported
      then record { array = a; destroyed_elements = []; thrown = true }
      else if dropped.thrown
      then dropped
      else zero_new a.count new_size dropped.destroyed_elements
          (resize allocates junk zeroed element_size new_size dropped.array)

  -- `reserve`, or none where the capacity is below the size.
  unfoldable pub reserve_elements : ℕ → TArray V → Option (TArray V × Option ArrayError)
  reserve_elements new_cap a =
      if ltb new_cap a.count
      then none
      else some (reserve allocates junk zeroed element_size new_cap a)
