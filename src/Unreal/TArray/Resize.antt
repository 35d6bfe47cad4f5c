-- ===== src/Unreal/TArray/Resize.antt =====
-- src/unrealsdk/unreal/structs/tarray.h: `resize`, and loops over an array.
use unrealsdk.Base.{
  ℕ, zero, suc, ◌+◌, ◌*◌, ◌%◌, ◌<◌, ◌≤◌, ◌≡◌, refl, sym, ◌∙◌, ap, subst, Bool, true, if◌then◌else◌,
  ltb, Option, none, some, List, [], ◌∷◌, arith, Bool-cases, inl, inr,
}
use unrealsdk.Unreal.TArray.{
  TArray, ArrayError, max_capacity, grown_capacity, reserve, with_count, resized, resize, read, at,
  begin, increment, iterate,
}
use unrealsdk.Unreal.TArray.Sizes.{IsTArray, HasCells, Keeps, reserve-Keeps}

-- The slack that `resize` asks for is enough, for any size an array may have.
grown_capacity_enough : (n : ℕ) → n ≤ max_capacity → (n ≤ grown_capacity n) × (n % 4294967296 ≡ n)
unfolding grown_capacity
grown_capacity_enough n l = ground arith

module _ {A : Type 0} where
  -- What `resize` promises: on success the array has the size, is well-formed, and has the elements
  -- it had up to the new size; on an exception it is as it was.
  unfoldable pub Resizes : ℕ → TArray A → TArray A × Option ArrayError → Type 0
  Resizes new_size a (b, none) =
      (b.count ≡ new_size)
      × (new_size ≤ b.max)
      × HasCells (b.cells) (b.max)
      × ((i : ℕ) → i < a.count → i < new_size → at b i ≡ at a i)
  Resizes new_size a (b, some e) = b ≡ a

  pub at-inside : (a : TArray A) (i : ℕ) → i < a.count → at a i ≡ read (a.cells) i
  unfolding at
  at-inside a i l = ground arith

  resized-Resizes :
      (n m : ℕ) (a : TArray A) (r : TArray A × Option ArrayError)
      → n ≤ m
      → n % 4294967296 ≡ n
      → Keeps m a r
      → Resizes n a (resized n r)
  unfolding resized Resizes Keeps with_count
  resized-Resizes n m a (b, some e) l w k = k
  resized-Resizes n m a (b, none) l w (count, max, has, kept) = (
    w,
    omega arith,
    subst (HasCells (b.cells)) (sym max) has,
    λ i u v. at-inside (with_count n b) i (omega arith) ∙ kept i u ∙ sym (at-inside a i u),
  )

  capacity_holds :
      (n : ℕ) (a : TArray A)
      → IsTArray a
      → ltb (a.max) n ≡ true
      → n ≤ grown_capacity n
      → a.count ≤ grown_capacity n
  unfolding IsTArray
  capacity_holds n a (bound, small, has) e enough = ground arith

  unchanged : (a : TArray A) → IsTArray a → Keeps (a.max) a (a, none)
  unfolding Keeps IsTArray
  unchanged a (bound, small, has) = (refl, refl, has, λ i l. refl)

  -- A resize to a size an array may have either succeeds, and then the array has that size within its
  -- capacity and the old elements up to it, or throws, and then the array is unchanged.
  pub resize-Resizes :
      (allocates : ℕ → Bool) (junk zeroed : A) (element_size new_size : ℕ) (a : TArray A)
      → IsTArray a
      → new_size ≤ max_capacity
      → Resizes new_size a (resize allocates junk zeroed element_size new_size a)
  unfolding resize resized
  resize-Resizes allocates junk zeroed element_size n a ia l =
      let (enough, width) = grown_capacity_enough n l in
      let grown = reserve allocates junk zeroed element_size (grown_capacity n) a in
      elim (Bool-cases (ltb (a.max) n)) [
        | inl e ↦
            subst (Resizes n a)
              (sym (ap (λ t. if t then resized n grown else (with_count n a, none)) e))
              (resized-Resizes n (grown_capacity n) a grown enough width (
                reserve-Keeps allocates junk zeroed element_size (grown_capacity n) a ia
                  (capacity_holds n a ia e enough)))
        | inr e ↦
            subst (Resizes n a)
              (sym (ap (λ t. if t then resized n grown else (with_count n a, none)) e))
              (resized-Resizes n (a.max) a (a, none) (ground arith) width (unchanged a ia))
      ]

  -- A resize to a size an array may have succeeds when the engine gives the memory and the capacity
  -- with its slack is one an array may have.
  pub resize_succeeds :
      (allocates : ℕ → Bool) (junk zeroed : A) (element_size new_size : ℕ) (a : TArray A)
      → grown_capacity new_size ≤ max_capacity
      → allocates (grown_capacity new_size * element_size) ≡ true
      → (resize allocates junk zeroed element_size new_size a).1 ≡ none
  unfolding resize resized reserve
  resize_succeeds allocates junk zeroed element_size n a l given = ground arith

  -- `n` elements from an index on.
  unfoldable pub elements_from : TArray A → ℕ → ℕ → List (Option A)
  elements_from a idx zero = []
  elements_from a idx (suc n) = at a idx ∷ elements_from a (suc idx) n

  iterate-end : (a : TArray A) (fuel : ℕ) → iterate a fuel none ≡ []
  unfolding iterate
  iterate-end a zero = refl
  iterate-end a (suc fuel) = refl

  last : (a : TArray A) (idx : ℕ) → idx + 1 ≡ a.count → increment a idx ≡ none
  unfolding increment
  last a idx e = ground arith

  inner : (a : TArray A) (idx : ℕ) → suc idx < a.count → increment a idx ≡ some (suc idx)
  unfolding increment
  inner a idx l = ground arith

  empty_begin : (a : TArray A) → 0 ≡ a.count → begin a ≡ none
  unfolding begin
  empty_begin a e = ground arith

  full_begin : (a : TArray A) (n : ℕ) → suc n ≡ a.count → begin a ≡ some 0
  unfolding begin
  full_begin a n e = ground arith

  iterate-from :
      (a : TArray A) (fuel idx n : ℕ)
      → idx + suc n ≡ a.count
      → suc n ≤ fuel
      → iterate a fuel (some idx) ≡ elements_from a idx (suc n)
  unfolding iterate elements_from
  iterate-from a zero idx n e l = absurd (omega arith)
  iterate-from a (suc fuel) idx zero e l =
      ap (◌∷◌ (read (a.cells) idx)) (ap (iterate a fuel) (last a idx e) ∙ iterate-end a fuel)
      ∙ ap (λ x. x ∷ []) (sym (at-inside a idx (omega arith)))
  iterate-from a (suc fuel) idx (suc n) e l =
      ap (◌∷◌ (read (a.cells) idx)) (
        ap (iterate a fuel) (inner a idx (omega arith))
        ∙ iterate-from a fuel (suc idx) n (omega arith) (omega arith))
      ∙ ap (λ x. x ∷ elements_from a (suc idx) (suc n)) (sym (at-inside a idx (omega arith)))

  -- A loop over the array reads, with at least as many rounds as there are elements, the element at
  -- each index below the count, in order, each once.
  pub iterate-begin :
      (a : TArray A) (fuel : ℕ)
      → a.count ≤ fuel
      → iterate a fuel (begin a) ≡ elements_from a 0 (a.count)
  unfolding elements_from
  iterate-begin a fuel l = go (a.count) refl
    where
      go : (n : ℕ) → n ≡ a.count → iterate a fuel (begin a) ≡ elements_from a 0 (a.count)
      go zero e =
          ap (iterate a fuel) (empty_begin a e) ∙ iterate-end a fuel ∙ ap (elements_from a 0) e
      go (suc n) e =
          ap (iterate a fuel) (full_begin a n e)
          ∙ iterate-from a fuel 0 n (omega arith) (omega arith)
          ∙ ap (elements_from a 0) e
