-- ===== src/Unreal/Copies.antt =====
-- src/unrealsdk/unreal/wrappers/wrapped_struct.cpp: structs are copied and destroyed property by property.
-- The memory holds the value of an element at its address; a struct is its base address.
pub mod Copying
mod Tests
use unrealsdk.Base.{
  not, Option, none, some, ℕ, zero, suc, ◌+◌, ◌*◌, Bool, true, false, if◌then◌else◌, ◌==◌, List, [],
  ◌∷◌, ◌++◌,
}

-- `is_supported` is whether `cast` knows the class of the property, else it throws.
pub record StructProperty : Type 0 where
  pub base_offset : ℕ
  pub element_size : ℕ
  pub dimension : ℕ
  pub is_param : Bool
  pub is_supported : Bool

-- `get_property` and `set_property` of one element.
unfoldable pub element_offset : StructProperty → ℕ → ℕ
element_offset p i = p.base_offset + i * p.element_size

-- `failure` is the read and the write of an element, by its offset, its value and what stands where it is
-- copied to: none where `PropTraits::get` and `PropTraits::set` of its class return, else what stands there
-- once one of them has thrown.
module _ {V : Type 0} (failure : ℕ → V → V → Option V) (dest src : ℕ) where
  unfoldable pub put_element : ℕ → V → (ℕ → V) → ℕ → V
  put_element o v memory a = if a == dest + o then v else memory a

  -- The memory, and whether an exception was thrown.
  unfoldable pub copy_element : ℕ → (ℕ → V) → (ℕ → V) × Bool
  copy_element o memory = elim (failure o (memory (src + o)) (memory (dest + o))) [
    | none ↦ (put_element o (memory (src + o)) memory, false)
    | some left ↦ (put_element o left memory, true)
  ]

  -- The loop over a property's elements, from `i`, with `n` left.
  unfoldable pub copy_elements : StructProperty → ℕ → ℕ → (ℕ → V) → (ℕ → V) × Bool
  copy_elements p zero i memory = (memory, false)
  copy_elements p (suc n) i memory =
      let r = copy_element (element_offset p i) memory in
      let rest = copy_elements p n (suc i) r.0 in if r.1 then r else rest

  unfoldable pub copy_properties : List StructProperty → (ℕ → V) → (ℕ → V) × Bool
  copy_properties [] memory = (memory, false)
  copy_properties (p ∷ ps) memory =
      let r = copy_elements p p.dimension 0 memory in
      let rest = copy_properties ps r.0 in
      if not p.is_supported then (memory, true) else if r.1 then r else rest

  unfoldable pub copy_struct : List StructProperty → (ℕ → V) → (ℕ → V) × Bool
  copy_struct ps memory = if dest == src then (memory, false) else copy_properties ps memory

  -- The loop of `copy_params_only`.
  unfoldable pub copy_params : List StructProperty → (ℕ → V) → (ℕ → V) × Bool
  copy_params [] memory = (memory, false)
  copy_params (p ∷ ps) memory =
      let skipped = copy_params ps memory in
      let r = copy_elements p p.dimension 0 memory in
      let rest = copy_params ps r.0 in
      if not p.is_param
      then skipped
      else if not p.is_supported
      then (memory, true)
      else if r.1
      then r
      else rest

-- `returns` is whether the destruction of the element at an address returns.
module _ (returns : ℕ → Bool) (addr : ℕ) where
  -- The addresses that are destroyed, in order, up to an exception.
  unfoldable pub destroy_elements : StructProperty → ℕ → ℕ → List ℕ
  destroy_elements p zero i = []
  destroy_elements p (suc n) i =
      let rest = destroy_elements p n (suc i) in
      if returns (addr + element_offset p i) then (addr + element_offset p i) ∷ rest else []

  -- An exception ends the work on one property.
  unfoldable pub destroy_struct : List StructProperty → List ℕ
  destroy_struct [] = []
  destroy_struct (p ∷ ps) =
      let rest = destroy_struct ps in
      if p.is_supported then destroy_elements p p.dimension 0 ++ rest else rest
