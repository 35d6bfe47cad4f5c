-- ===== src/Unreal/Strings.antt =====
-- unreal/structs/fstring.cpp: the engine's strings, which are arrays of code units that end with a null.
mod Tests
use unrealsdk.Base.{
  ℕ, zero, suc, ◌+◌, ◌*◌, ◌<◌, ◌≤◌, ◌≡◌, refl, sym, ap, ◌∙◌, subst, Bool, true, false,
  if◌then◌else◌, ◌==◌, ltb, Option, none, some, inl, inr, List, [], ◌∷◌, ◌++◌, Wide, length, take,
  drop, arith, Option-cases, Bool-cases, length-append,
}
use unrealsdk.Unreal.TArray.{TArray, ArrayError, max_capacity, grown_capacity, resize, replicate}
use unrealsdk.Unreal.TArray.Sizes.{IsTArray, HasCells}
use unrealsdk.Unreal.TArray.Resize.{resize-Resizes, resize_succeeds, Resizes}

abbrev pub empty_array : TArray ℕ
empty_array = record { cells = none; count = 0; max = 0 }

-- `valid_size`, or none where it throws.
unfoldable pub valid_size : Wide → Option ℕ
valid_size str = let size = length str + 1 in if ltb max_capacity size then none else some size

-- `memcpy` to the start of the cells.
unfoldable pub copied_over : List ℕ → List ℕ → List ℕ
copied_over source cells = source ++ drop (length source) cells

unfoldable pub with_units : List ℕ → TArray ℕ → TArray ℕ
with_units source a = elim a.cells [
  | none ↦ a
  | some cells ↦ record a { cells = some (copied_over source cells) }
]

-- A single null at the end is removed.
unfoldable pub strip_null : List ℕ → List ℕ
strip_null [] = []
strip_null (c ∷ []) = if c == 0 then [] else c ∷ []
strip_null (c ∷ d ∷ cs) = c ∷ strip_null (d ∷ cs)

-- The conversion to a string view.
unfoldable pub to_view : TArray ℕ → Wide
to_view a = elim a.cells [ none ↦ [] | some cells ↦ strip_null (take a.count cells) ]

-- `allocates` is the engine's answer to a request, and `junk` what stands in the memory it gives.
module _ (allocates : ℕ → Bool) (junk : ℕ) where
  unfoldable pub filled : List ℕ → TArray ℕ × Option ArrayError → Option (TArray ℕ)
  filled source (a, none) = some (with_units source a)
  filled source (a, some e) = none

  -- The constructor from a view, where `following` is the code unit in memory after it, which is copied
  -- as well; or none where it throws.
  unfoldable pub construct_string : Wide → ℕ → Option (TArray ℕ)
  construct_string [] following = some empty_array
  construct_string (c ∷ cs) following = elim (valid_size (c ∷ cs)) [
    | none ↦ none
    | some size ↦ filled ((c ∷ cs) ++ following ∷ []) (resize allocates junk 0 2 size empty_array)
  ]

  -- The assignment of text: the new string, and the array that the temporary is left with, which its
  -- destructor does not free.
  unfoldable pub assign_string : TArray ℕ → Wide → ℕ → Option (TArray ℕ × TArray ℕ)
  assign_string a str following = elim (construct_string str following) [
    | none ↦ none
    | some new_array ↦ some (new_array, a)
  ]

  -- The copy of a `ManagedFString`.
  unfoldable pub copy_string : TArray ℕ → Option (TArray ℕ)
  copy_string a =
      if allocates (a.max * 2)
      then some (record {
        cells = some (
            copied_over (elim a.cells [ none ↦ [] | some cells ↦ take a.count cells ])
              (replicate a.max junk));
        count = a.count;
        max = a.max;
      })
      else none

take_prefix : (xs ys : List ℕ) → take (length xs) (xs ++ ys) ≡ xs
take_prefix [] ys = refl
take_prefix (x ∷ xs) ys = ap (◌∷◌ x) (take_prefix xs ys)

take_copied : (source cells : List ℕ) → take (length source) (copied_over source cells) ≡ source
unfolding copied_over
take_copied source cells = take_prefix source (drop (length source) cells)

strip_null_end : (str : Wide) → strip_null (str ++ 0 ∷ []) ≡ str
unfolding strip_null
strip_null_end [] = refl
strip_null_end (c ∷ []) = ground arith
strip_null_end (c ∷ d ∷ cs) = ap (◌∷◌ c) (strip_null_end (d ∷ cs))

with_units-to_view :
    (source : List ℕ) (a : TArray ℕ)
    → a.count ≡ length source
    → 0 < a.max
    → HasCells a.cells a.max
    → to_view (with_units source a) ≡ strip_null source
unfolding with_units to_view HasCells
with_units-to_view source a counted l has = elim (Option-cases a.cells) [
  | inl e ↦ absurd (omega (arith, l, subst (λ c. HasCells c a.max) e has))
  | inr (cells, e) ↦
      subst
        (λ c.
          to_view (elim c [
            | none ↦ a
            | some cells ↦ record a { cells = some (copied_over source cells) }
          ])
          ≡ strip_null source)
        (sym e)
        (ap strip_null
          (ap (λ n. take n (copied_over source cells)) counted ∙ take_copied source cells))
]

module _ (allocates : ℕ → Bool) (junk : ℕ) where
  filled-to_view :
      (source : List ℕ) (r : TArray ℕ × Option ArrayError)
      → r.1 ≡ none
      → 0 < length source
      → Resizes (length source) empty_array r
      → (a : TArray ℕ) × (filled allocates junk source r ≡ some a) × (to_view a ≡ strip_null source)
  unfolding filled Resizes
  filled-to_view source (a, none) e l (counted, enough, has, kept) =
      (with_units source a, refl, with_units-to_view source a counted (omega arith) has)
  filled-to_view source (a, some bad) e l h = absurd (ground arith)

  empty-IsTArray : IsTArray empty_array
  unfolding IsTArray HasCells
  empty-IsTArray = (omega arith, omega arith, refl)

  construct_string_units :
      (c : ℕ) (cs : Wide) (following : ℕ)
      → grown_capacity (length (c ∷ cs) + 1) ≤ max_capacity
      → length (c ∷ cs) + 1 ≤ max_capacity
      → allocates (grown_capacity (length (c ∷ cs) + 1) * 2) ≡ true
      → (a : TArray ℕ) × (construct_string allocates junk (c ∷ cs) following ≡ some a)
        × (to_view a ≡ strip_null ((c ∷ cs) ++ following ∷ []))
  unfolding construct_string valid_size
  construct_string_units c cs following l u given =
      let source = (c ∷ cs) ++ following ∷ [] in
      let size = length (c ∷ cs) + 1 in
      let counted : length source ≡ size = length-append (c ∷ cs) (following ∷ []) in
      let r = resize allocates junk 0 2 size empty_array in
      let (a, e, view) =
        filled-to_view source r (resize_succeeds allocates junk 0 2 size empty_array l given)
          (omega arith)
          (subst (λ n. Resizes n empty_array r) (sym counted)
            (resize-Resizes allocates junk 0 2 size empty_array empty-IsTArray u)) in
      (a, ground (arith, e), view)

-- Text that is followed by a null in memory, as that of a string is, is what the engine's string made of
-- it is read as, when it is not too long and the engine gives the memory.
pub to_view-construct_string :
    (allocates : ℕ → Bool) (junk : ℕ) (str : Wide)
    → grown_capacity (length str + 1) ≤ max_capacity
    → length str + 1 ≤ max_capacity
    → allocates (grown_capacity (length str + 1) * 2) ≡ true
    → (a : TArray ℕ) × (construct_string allocates junk str 0 ≡ some a) × (to_view a ≡ str)
unfolding construct_string to_view
to_view-construct_string allocates junk [] l u given = (empty_array, refl, refl)
to_view-construct_string allocates junk (c ∷ cs) l u given =
    let (a, e, view) = construct_string_units allocates junk c cs 0 l u given in
    (a, e, view ∙ strip_null_end (c ∷ cs))
