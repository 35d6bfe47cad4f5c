-- ===== src/Unreal/Elements/Resizing.antt =====
-- unreal/wrappers/wrapped_array.cpp: the elements of an array after `resize`.
use unrealsdk.Base.{
  ℕ, zero, suc, ◌-◌, ◌<◌, ◌≤◌, ◌≡◌, refl, sym, ◌∙◌, ap, subst, Bool, true, false, if◌then◌else◌,
  Option, none, some, List, [], ◌∷◌, arith, Bool-cases, Option-cases, inl, inr, ◌⊎◌,
}
use unrealsdk.Unreal.TArray.{TArray, ArrayError, max_capacity, resize, read, at}
use unrealsdk.Unreal.TArray.Sizes.{IsTArray, HasCells}
use unrealsdk.Unreal.TArray.Resize.{Resizes, resize-Resizes, elements_from, at-inside}
use unrealsdk.Unreal.Elements.{
  write, fill, ResizeOutcome, destroy_at, destroy_range, zero_new, resize_elements,
}
use unrealsdk.Unreal.Elements.Cells.{
  SameSize, SameSize-max, SameSize-trans, SameSize-HasCells, SameSize-count, unchanged_size,
  write-SameSize, write-other, fill-SameSize, fill-before, fill-inside,
}

module _ {V : Type 0} where
  at-SameSize :
      (a b : TArray V) (j : ℕ) → SameSize a b → read b.cells j ≡ read a.cells j → at b j ≡ at a j
  unfolding at
  at-SameSize a b j same e = let count = SameSize-count a b same in ground (arith, count, e)

  elements_same :
      (a b : TArray V) (n i : ℕ)
      → ((j : ℕ) → i ≤ j → at b j ≡ at a j)
      → elements_from b i n ≡ elements_from a i n
  unfolding elements_from
  elements_same a b zero i e = refl
  elements_same a b (suc n) i e =
      cc (e i (omega arith), elements_same a b n (suc i) (λ j l. e j (omega arith)))

  -- Of the outcome of a loop that destroys `n` elements from `i`.
  unfoldable pub Destroys : ℕ → ℕ → TArray V → ResizeOutcome V → Type 0
  Destroys n i a r =
      SameSize a r.array
      × ((j : ℕ) → j < i → read r.array.cells j ≡ read a.cells j)
      × (r.thrown ≡ false → n ≤ a.count - i → r.destroyed_elements ≡ elements_from a i n)

  destroy_at-cases :
      (destroy : V → Option V) (i : ℕ) (a : TArray V)
      → (destroy_at destroy i a ≡ none)
        ⊎ ((left : V) × (destroy_at destroy i a ≡ some (write i left a)))
  unfolding destroy_at
  destroy_at-cases destroy i a = elim (Option-cases (read a.cells i)) [
    | inl e ↦ inl (ground (arith, e))
    | inr (v, e) ↦ elim (Option-cases (destroy v)) [
      | inl d ↦ inl (ground (arith, e, d))
      | inr (left, d) ↦ inr (left, ground (arith, e, d))
    ]
  ]

  after_write-Destroys :
      (n i : ℕ) (left : V) (a : TArray V) (rest : ResizeOutcome V)
      → HasCells a.cells a.max
      → Destroys n (suc i) (write i left a) rest
      → Destroys (suc n) i a (record {
        array = rest.array;
        destroyed_elements = read a.cells i ∷ rest.destroyed_elements;
        thrown = rest.thrown;
      })
  unfolding Destroys elements_from
  after_write-Destroys n i left a rest h (same, kept, list) =
      let written = write-SameSize i left a h in
      let b = write i left a in
      let count = SameSize-count a b written in
      (
        SameSize-trans a b rest.array written same,
        λ j l. kept j (omega arith) ∙ write-other i j left a (λ e. absurd (omega arith)),
        λ t l. cc (
          at-inside a i (omega arith),
          list t (omega (arith, count)),
          elements_same a b n (suc i) (λ j m.
              at-SameSize a b j written (write-other i j left a (λ e. absurd (omega arith)))),
        ),
      )

  destroy_range-Destroys :
      (destroy : V → Option V) (n i : ℕ) (a : TArray V)
      → HasCells a.cells a.max
      → Destroys n i a (destroy_range destroy n i a)
  unfolding destroy_range Destroys elements_from
  destroy_range-Destroys destroy zero i a h = (unchanged_size a h, λ j l. refl, λ t l. refl)
  destroy_range-Destroys destroy (suc n) i a h =
      let outcome : Option (TArray V) → ResizeOutcome V = λ o. elim o [
        | none ↦ record { array = a; destroyed_elements = []; thrown = true }
        | some b ↦
            let rest = destroy_range destroy n (suc i) b in
            record {
              array = rest.array;
              destroyed_elements = read a.cells i ∷ rest.destroyed_elements;
              thrown = rest.thrown;
            }
      ] in
      elim (destroy_at-cases destroy i a) [
        | inl e ↦
            subst (λ o. Destroys (suc n) i a (outcome o)) (sym e)
              (unchanged_size a h, λ j l. refl, λ t l. absurd (ground arith))
        | inr (left, e) ↦
            let b = write i left a in
            subst (λ o. Destroys (suc n) i a (outcome o)) (sym e)
              (after_write-Destroys n i left a (destroy_range destroy n (suc i) b) h (
                destroy_range-Destroys destroy n (suc i) b
                  (SameSize-HasCells a b (write-SameSize i left a h))))
      ]

  -- Of the outcome of a resize to `n`: the elements below the old and the new size are kept. If
  -- nothing was thrown, the array has `n` elements, the dropped ones were destroyed in order, each
  -- once, and the new ones are zeroed; otherwise the array has the size it had.
  unfoldable pub Resized : V → ℕ → TArray V → ResizeOutcome V → Type 0
  Resized zeroed n a r =
      ((j : ℕ) → j < a.count → j < n → at r.array j ≡ at a j)
      × (r.thrown ≡ false
          → (r.array.count ≡ n)
            × (r.destroyed_elements ≡ elements_from a n (a.count - n))
            × ((j : ℕ) → a.count ≤ j → j < n → at r.array j ≡ some zeroed))
      × (r.thrown ≡ true → r.array.count ≡ a.count)

module _ {V : Type 0} (allocates : ℕ → Bool) (junk zeroed : V) (element_size : ℕ) where
  -- The part of `resize` after the loop, where `b` has the elements that are kept.
  zero_new-Resized :
      (n : ℕ) (a b : TArray V) (destroyed_elements : List (Option V))
      (p : TArray V × Option ArrayError)
      → SameSize a b
      → ((j : ℕ) → j < n → at b j ≡ at a j)
      → destroyed_elements ≡ elements_from a n (a.count - n)
      → Resizes n b p
      → Resized zeroed n a
          (zero_new allocates junk zeroed element_size a.count n destroyed_elements p)
  unfolding zero_new Resized Resizes
  zero_new-Resized n a b destroyed_elements (c, some e) same kept list r =
      let count = SameSize-count a b same in
      (
        λ j l u. ap (λ c. at c j) r ∙ kept j u,
        λ t. absurd (ground arith),
        λ t. ap (λ c. c.count) r ∙ count,
      )
  zero_new-Resized n a b destroyed_elements (c, none) same kept list (count, room, h, old) =
      let before = SameSize-count a b same in
      let filled = fill zeroed (n - a.count) a.count c in
      let size = fill-SameSize zeroed (n - a.count) a.count c h in
      let after = SameSize-count c filled size in
      (
        λ j l u.
            at-SameSize c filled j size (fill-before zeroed (n - a.count) a.count j c l)
            ∙ old j (omega (arith, before)) u
            ∙ kept j u,
        λ t. (
          after ∙ count,
          list,
          λ j l u.
              at-inside filled j (omega (arith, after, count))
              ∙ fill-inside zeroed (n - a.count) a.count j c h l (omega arith)
                  (omega (arith, count)),
        ),
        λ t. absurd (ground arith),
      )

  dropped-Resized :
      (n : ℕ) (a : TArray V) (r : ResizeOutcome V)
      → Destroys (a.count - n) n a r
      → r.thrown ≡ true
      → Resized zeroed n a r
  unfolding Destroys Resized
  dropped-Resized n a r (same, kept, list) t = (
    λ j l u. at-SameSize a r.array j same (kept j u),
    λ f. absurd (ground arith),
    λ t. SameSize-count a r.array same,
  )

  SameSize-IsTArray : (a b : TArray V) → IsTArray a → SameSize a b → IsTArray b
  unfolding IsTArray
  SameSize-IsTArray a b (bound, small, h) same =
      let count = SameSize-count a b same in
      let max = SameSize-max a b same in
      (omega (arith, count, max), omega (arith, max), SameSize-HasCells a b same)

  IsTArray-HasCells : (a : TArray V) → IsTArray a → HasCells a.cells a.max
  unfolding IsTArray
  IsTArray-HasCells a (bound, small, h) = h

  kept-Resized :
      (n : ℕ) (a : TArray V) (r : ResizeOutcome V)
      → IsTArray a
      → n ≤ max_capacity
      → Destroys (a.count - n) n a r
      → r.thrown ≡ false
      → Resized zeroed n a (
          zero_new allocates junk zeroed element_size a.count n r.destroyed_elements
            (resize allocates junk zeroed element_size n r.array))
  unfolding Destroys
  kept-Resized n a r ia l (same, kept, list) f =
      zero_new-Resized n a r.array r.destroyed_elements
        (resize allocates junk zeroed element_size n r.array) same
        (λ j u. at-SameSize a r.array j same (kept j u)) (list f (omega arith))
        (resize-Resizes allocates junk zeroed element_size n r.array
          (SameSize-IsTArray a r.array ia same) l)

  unsupported-Resized :
      (n : ℕ) (a : TArray V)
      → Resized zeroed n a (record { array = a; destroyed_elements = []; thrown = true })
  unfolding Resized
  unsupported-Resized n a = (λ j l u. refl, λ f. absurd (ground arith), λ t. refl)

  -- The outcome of a resize to a size an array may have, from a well-formed array: the elements below
  -- the old and the new size are kept. If nothing is thrown, the array has the new size, the dropped
  -- elements were destroyed in order, each once, and the new ones are zeroed; otherwise the array has
  -- the size it had.
  pub resize_elements-Resized :
      (is_supported : Bool) (destroy : V → Option V) (n : ℕ) (a : TArray V)
      → IsTArray a
      → n ≤ max_capacity
      → Resized zeroed n a
          (resize_elements allocates junk zeroed element_size is_supported destroy n a)
  unfolding resize_elements
  resize_elements-Resized false destroy n a ia l = unsupported-Resized n a
  resize_elements-Resized true destroy n a ia l =
      let r = destroy_range destroy (a.count - n) n a in
      let d = destroy_range-Destroys destroy (a.count - n) n a (IsTArray-HasCells a ia) in
      let later =
        zero_new allocates junk zeroed element_size a.count n r.destroyed_elements
          (resize allocates junk zeroed element_size n r.array) in
      elim (Bool-cases r.thrown) [
        | inl t ↦
            subst (λ c. Resized zeroed n a (if c then r else later)) (sym t)
              (dropped-Resized n a r d t)
        | inr f ↦
            subst (λ c. Resized zeroed n a (if c then r else later)) (sym f)
              (kept-Resized n a r ia l d f)
      ]
