-- ===== src/Unreal/TArray/Sizes.antt =====
-- src/unrealsdk/unreal/structs/tarray_funcs.h: the cells of an array before and after `reserve`.
use unrealsdk.Base.{
  ℕ, zero, suc, ◌-◌, ◌*◌, ◌<◌, ◌≤◌, ◌≡◌, refl, sym, ◌∙◌, ap, subst, Bool, ◌==◌, ltb, ◌&&◌, Option,
  none, some, List, [], ◌∷◌, ◌++◌, get_elem?, take, length, length-append, arith, Bool-cases, inl,
  inr, ◌⊎◌,
}
use unrealsdk.Unreal.TArray.{
  TArray, ArrayError, max_capacity_exceeded, allocation_failed, max_capacity, replicate, allocated,
  zeroed_from, reserved_cells, reserve, read,
}

-- A range of memory of `n` cells.
unfoldable pub HasCells : {A : Type 0} → Option (List A) → ℕ → Type 0
HasCells none n = n ≡ 0
HasCells (some cells) n = length cells ≡ n

-- The memory has as many cells as the capacity, which bounds the count; there is none at capacity 0.
unfoldable pub IsTArray : {A : Type 0} → TArray A → Type 0
IsTArray a = (a.count ≤ a.max) × (a.max ≤ max_capacity) × HasCells (a.cells) (a.max)

module _ {A : Type 0} where
  length-replicate : (n : ℕ) (a : A) → length (replicate n a) ≡ n
  unfolding replicate
  length-replicate zero a = refl
  length-replicate (suc n) a = ap suc (length-replicate n a)

  length-take : (n : ℕ) (xs : List A) → n ≤ length xs → length (take n xs) ≡ n
  length-take zero xs l = refl
  length-take (suc n) [] l = absurd (omega arith)
  length-take (suc n) (x ∷ xs) l = ap suc (length-take n xs (omega arith))

  get_elem?-take : (n i : ℕ) (xs : List A) → i < n → get_elem? (take n xs) i ≡ get_elem? xs i
  get_elem?-take zero i xs l = absurd (omega arith)
  get_elem?-take (suc n) i [] l = refl
  get_elem?-take (suc n) zero (x ∷ xs) l = refl
  get_elem?-take (suc n) (suc i) (x ∷ xs) l = get_elem?-take n i xs (omega arith)

  get_elem?-append :
      (i : ℕ) (xs ys : List A) → i < length xs → get_elem? (xs ++ ys) i ≡ get_elem? xs i
  get_elem?-append i [] ys l = absurd (omega arith)
  get_elem?-append zero (x ∷ xs) ys l = refl
  get_elem?-append (suc i) (x ∷ xs) ys l = get_elem?-append i xs ys (omega arith)

  -- What `reserve` promises for a capacity that holds the array's elements.
  unfoldable pub Keeps : ℕ → TArray A → TArray A × Option ArrayError → Type 0
  Keeps new_cap a (b, none) =
      (b.count ≡ a.count)
      × (b.max ≡ new_cap)
      × HasCells (b.cells) new_cap
      × ((i : ℕ) → i < a.count → read (b.cells) i ≡ read (a.cells) i)
  Keeps new_cap a (b, some e) = b ≡ a

module _ {A : Type 0} (allocates : ℕ → Bool) (junk zeroed : A) (element_size : ℕ) where
  length-allocated :
      (n : ℕ) (cells : Option (List A))
      → length (allocated allocates junk zeroed element_size n cells) ≡ n
  unfolding allocated
  length-allocated n none = length-replicate n junk
  length-allocated n (some cells) =
      length-take n (cells ++ replicate n junk)
        (omega (arith, length-append cells (replicate n junk), length-replicate n junk))

  get_elem?-allocated :
      (n i : ℕ) (cells : List A)
      → i < n
      → i < length cells
      → get_elem? (allocated allocates junk zeroed element_size n (some cells)) i
        ≡ get_elem? cells i
  unfolding allocated
  get_elem?-allocated n i cells l u =
      get_elem?-take n i (cells ++ replicate n junk) l
      ∙ get_elem?-append i cells (replicate n junk) u

  length-zeroed_from :
      (n : ℕ) (cells : List A)
      → n ≤ length cells
      → length (zeroed_from allocates junk zeroed element_size n cells) ≡ length cells
  unfolding zeroed_from
  length-zeroed_from n cells l = omega (
    arith,
    length-append (take n cells) (replicate (length cells - n) zeroed),
    length-take n cells l,
    length-replicate (length cells - n) zeroed,
  )

  zeroed_from-kept :
      (n i : ℕ) (cells : List A)
      → n ≤ length cells
      → i < n
      → get_elem? (zeroed_from allocates junk zeroed element_size n cells) i ≡ get_elem? cells i
  unfolding zeroed_from
  zeroed_from-kept n i cells l u =
      get_elem?-append i (take n cells) (replicate (length cells - n) zeroed)
        (omega (arith, length-take n cells l))
      ∙ get_elem?-take n i cells u

  reserved_cells-cases :
      (n old : ℕ) (cells : Option (List A))
      → ((old < n)
          × (reserved_cells allocates junk zeroed element_size n old cells
              ≡ zeroed_from allocates junk zeroed element_size old
                  (allocated allocates junk zeroed element_size n cells)))
        ⊎ (reserved_cells allocates junk zeroed element_size n old cells
            ≡ allocated allocates junk zeroed element_size n cells)
  unfolding reserved_cells
  reserved_cells-cases n old cells = elim (Bool-cases (ltb 0 old && ltb old n)) [
    | inl e ↦ inl (ground arith, ground arith)
    | inr e ↦ inr (ground arith)
  ]

  length-reserved_cells :
      (n old : ℕ) (cells : Option (List A))
      → length (reserved_cells allocates junk zeroed element_size n old cells) ≡ n
  length-reserved_cells n old cells =
      let whole = allocated allocates junk zeroed element_size n cells in
      elim (reserved_cells-cases n old cells) [
        | inl (l, e) ↦
            ap length e
            ∙ length-zeroed_from old whole (omega (arith, length-allocated n cells))
            ∙ length-allocated n cells
        | inr e ↦ ap length e ∙ length-allocated n cells
      ]

  reserved_cells-kept :
      (n old i : ℕ) (cells : Option (List A))
      → HasCells cells old
      → i < n
      → i < old
      → get_elem? (reserved_cells allocates junk zeroed element_size n old cells) i ≡ read cells i
  unfolding HasCells read
  reserved_cells-kept n old i none h l u = absurd (omega arith)
  reserved_cells-kept n old i (some cells) h l u =
      let whole = allocated allocates junk zeroed element_size n (some cells) in
      let kept = get_elem?-allocated n i cells l (omega arith) in
      elim (reserved_cells-cases n old (some cells)) [
        | inl (lt, e) ↦
            ap (λ c. get_elem? c i) e
            ∙ zeroed_from-kept old i whole (omega (arith, length-allocated n (some cells))) u
            ∙ kept
        | inr e ↦ ap (λ c. get_elem? c i) e ∙ kept
      ]

  reserve-cases :
      (new_cap : ℕ) (a : TArray A)
      → (reserve allocates junk zeroed element_size new_cap a ≡ (
        record {
          cells =
              some (reserved_cells allocates junk zeroed element_size new_cap (a.max) (a.cells));
          count = a.count;
          max = new_cap;
        },
        none,
      ))
        ⊎ ((e : ArrayError) × (reserve allocates junk zeroed element_size new_cap a ≡ (a, some e)))
        ⊎ ((new_cap ≡ a.max) × (reserve allocates junk zeroed element_size new_cap a ≡ (a, none)))
  unfolding reserve
  reserve-cases new_cap a = elim (Bool-cases (ltb max_capacity new_cap)) [
    | inl e ↦ inr (inl (max_capacity_exceeded, ground arith))
    | inr e ↦ elim (Bool-cases (new_cap == a.max)) [
      | inl same ↦ inr (inr (ground arith, ground arith))
      | inr other ↦ elim (Bool-cases (allocates (new_cap * element_size))) [
        | inl given ↦ inl (ground arith)
        | inr refused ↦ inr (inl (allocation_failed, ground arith))
      ]
    ]
  ]

  pub reserve-Keeps :
      (new_cap : ℕ) (a : TArray A)
      → IsTArray a
      → a.count ≤ new_cap
      → Keeps new_cap a (reserve allocates junk zeroed element_size new_cap a)
  unfolding Keeps IsTArray HasCells read
  reserve-Keeps new_cap a (bound, small, has) l = elim (reserve-cases new_cap a) [
    | inl e ↦ subst (Keeps new_cap a) (sym e) (
      refl,
      refl,
      length-reserved_cells new_cap (a.max) (a.cells),
      λ i u. reserved_cells-kept new_cap (a.max) i (a.cells) has (omega arith) (omega arith),
    )
    | inr (inl (thrown, e)) ↦ subst (Keeps new_cap a) (sym e) refl
    | inr (inr (same, e)) ↦
        subst (Keeps new_cap a) (sym e)
          (refl, sym same, subst (HasCells (a.cells)) (sym same) has, λ i u. refl)
  ]
