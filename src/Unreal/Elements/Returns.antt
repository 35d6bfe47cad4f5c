-- ===== src/Unreal/Elements/Returns.antt =====
-- unreal/wrappers/wrapped_array.cpp: when `resize` throws nothing, and reads after writes.
use unrealsdk.Base.{
  ℕ, zero, suc, ◌-◌, ◌*◌, ◌<◌, ◌≤◌, ◌≡◌, refl, Bool, true, false, Option, none, some, List, [], ◌∷◌,
  get_elem?, length, arith, inl, inr, ◌⊎◌,
}
use unrealsdk.Unreal.TArray.{TArray, ArrayError, max_capacity, grown_capacity, resize, read}
use unrealsdk.Unreal.TArray.Sizes.{IsTArray, HasCells}
use unrealsdk.Unreal.TArray.Resize.{resize_succeeds}
use unrealsdk.Unreal.Elements.{write, destroy_at, destroy_range, zero_new, resize_elements}
use unrealsdk.Unreal.Elements.Cells.{SameSize-max, SameSize-HasCells, write-SameSize}

module _ {V : Type 0} where
  get_elem?_inside :
      (cells : List V) (i : ℕ) → i < length cells → (v : V) × (get_elem? cells i ≡ some v)
  get_elem?_inside [] i l = absurd (omega arith)
  get_elem?_inside (c ∷ cells) zero l = (c, refl)
  get_elem?_inside (c ∷ cells) (suc i) l = get_elem?_inside cells i (omega arith)

  read_inside :
      (cells : Option (List V)) (n i : ℕ)
      → HasCells cells n
      → i < n
      → (v : V) × (read cells i ≡ some v)
  unfolding read HasCells
  read_inside none n i h l = absurd (omega arith)
  read_inside (some cells) n i h l = get_elem?_inside cells i (omega arith)

  module _ (destroy : V → Option V) (returns : (v : V) → (left : V) × (destroy v ≡ some left)) where
    destroy_at_returns :
        (i : ℕ) (a : TArray V)
        → HasCells a.cells a.max
        → i < a.max
        → (left : V) × (destroy_at destroy i a ≡ some (write i left a))
    unfolding destroy_at
    destroy_at_returns i a h l =
        let (v, e) = read_inside a.cells a.max i h l in
        let (left, d) = returns v in (left, ground (arith, e, d))

    destroy_range_returns :
        (n i : ℕ) (a : TArray V)
        → HasCells a.cells a.max
        → n ≤ a.max - i
        → ((destroy_range destroy n i a).thrown ≡ false)
          × ((destroy_range destroy n i a).array.max ≡ a.max)
    unfolding destroy_range
    destroy_range_returns zero i a h l = (refl, refl)
    destroy_range_returns (suc n) i a h l =
        let (left, e) = destroy_at_returns i a h (omega arith) in
        let b = write i left a in
        let same = write-SameSize i left a h in
        let max = SameSize-max a b same in
        let (t, m) =
          destroy_range_returns n (suc i) b (SameSize-HasCells a b same) (omega (arith, max)) in
        (ground (arith, e, t), ground (arith, e, m, max))

    module _ (allocates : ℕ → Bool) (junk zeroed : V) (element_size : ℕ) where
      zero_new_returns :
          (old_size new_size : ℕ) (destroyed_elements : List (Option V))
          (p : TArray V × Option ArrayError)
          → p.1 ≡ none
          → (zero_new allocates junk zeroed element_size old_size new_size destroyed_elements
              p).thrown
            ≡ false
      unfolding zero_new
      zero_new_returns old_size new_size destroyed_elements (a, none) e = refl
      zero_new_returns old_size new_size destroyed_elements (a, some bad) e = absurd (ground arith)

      resize_returns :
          (n : ℕ) (a b : TArray V)
          → b.max ≡ a.max
          → (n ≤ a.max)
            ⊎ ((grown_capacity n ≤ max_capacity)
                × (allocates (grown_capacity n * element_size) ≡ true))
          → (resize allocates junk zeroed element_size n b).1 ≡ none
      unfolding resize
      resize_returns n a b max (inl l) = ground (arith, max)
      resize_returns n a b max (inr (small, given)) =
          resize_succeeds allocates junk zeroed element_size n b small given

      -- A resize of a well-formed array throws nothing when the class of the elements is supported, they
      -- are destroyed without an exception, and either the new size is within the capacity, or the
      -- capacity that is asked for, which is the new size with slack, is one that an array may have
      -- and the engine gives the memory for it.
      pub resize_elements_returns :
          (n : ℕ) (a : TArray V)
          → IsTArray a
          → (n ≤ a.max)
            ⊎ ((grown_capacity n ≤ max_capacity)
                × (allocates (grown_capacity n * element_size) ≡ true))
          → (resize_elements allocates junk zeroed element_size true destroy n a).thrown ≡ false
      unfolding resize_elements IsTArray
      resize_elements_returns n a (bound, small, h) room =
          let r = destroy_range destroy (a.count - n) n a in
          let (t, max) = destroy_range_returns (a.count - n) n a h (omega arith) in
          let last =
            zero_new_returns a.count n r.destroyed_elements
              (resize allocates junk zeroed element_size n r.array)
              (resize_returns n a r.array max room) in
          ground (arith, t, last)
