-- ===== src/Unreal/Elements/Cells.antt =====
-- unreal/wrappers/wrapped_array.cpp: the cells of an array after writes, and after elements are destroyed.
use unrealsdk.Base.{
  ℕ, zero, suc, ◌+◌, ◌<◌, ◌≤◌, ◌≡◌, ◌≢◌, refl, ◌∙◌, ap, subst, leb, Option, none, some, List, [],
  ◌∷◌, get_elem?, length, arith, Bool-cases, inl, inr,
}
use unrealsdk.Unreal.TArray.{TArray, read}
use unrealsdk.Unreal.TArray.Sizes.{HasCells}
use unrealsdk.Unreal.Elements.{set_cell, put, write, fill}

module _ {V : Type 0} where
  length-set_cell : (i : ℕ) (v : V) (cells : List V) → length (set_cell i v cells) ≡ length cells
  unfolding set_cell
  length-set_cell i v [] = refl
  length-set_cell zero v (c ∷ cells) = refl
  length-set_cell (suc i) v (c ∷ cells) = ap suc (length-set_cell i v cells)

  set_cell-other :
      (i j : ℕ) (v : V) (cells : List V)
      → i ≢ j
      → get_elem? (set_cell i v cells) j ≡ get_elem? cells j
  unfolding set_cell
  set_cell-other i j v [] other = refl
  set_cell-other zero zero v (c ∷ cells) other = absurd (other refl)
  set_cell-other zero (suc j) v (c ∷ cells) other = refl
  set_cell-other (suc i) zero v (c ∷ cells) other = refl
  set_cell-other (suc i) (suc j) v (c ∷ cells) other =
      set_cell-other i j v cells (λ same. other (ap suc same))

  set_cell-same :
      (i : ℕ) (v : V) (cells : List V)
      → i < length cells
      → get_elem? (set_cell i v cells) i ≡ some v
  unfolding set_cell
  set_cell-same i v [] l = absurd (omega arith)
  set_cell-same zero v (c ∷ cells) l = refl
  set_cell-same (suc i) v (c ∷ cells) l = set_cell-same i v cells (omega arith)

  -- The arrays have the same size and capacity, and memory for it.
  unfoldable pub SameSize : TArray V → TArray V → Type 0
  SameSize a b = (b.count ≡ a.count) × (b.max ≡ a.max) × HasCells b.cells b.max

  put-HasCells :
      (i n : ℕ) (v : V) (cells : Option (List V)) → HasCells cells n → HasCells (put i v cells) n
  unfolding HasCells put
  put-HasCells i n v none h = h
  put-HasCells i n v (some cells) h = length-set_cell i v cells ∙ h

  put-other :
      (i j : ℕ) (v : V) (cells : Option (List V)) → i ≢ j → read (put i v cells) j ≡ read cells j
  unfolding put read
  put-other i j v none other = refl
  put-other i j v (some cells) other = set_cell-other i j v cells other

  put-same :
      (i n : ℕ) (v : V) (cells : Option (List V))
      → HasCells cells n
      → i < n
      → read (put i v cells) i ≡ some v
  unfolding put read HasCells
  put-same i n v none h l = absurd (omega arith)
  put-same i n v (some cells) h l = set_cell-same i v cells (omega arith)

  pub write-SameSize :
      (i : ℕ) (v : V) (a : TArray V) → HasCells a.cells a.max → SameSize a (write i v a)
  unfolding SameSize write
  write-SameSize i v a h = (refl, refl, put-HasCells i a.max v a.cells h)

  pub write-other :
      (i j : ℕ) (v : V) (a : TArray V) → i ≢ j → read (write i v a).cells j ≡ read a.cells j
  unfolding write
  write-other i j v a other = put-other i j v a.cells other

  pub write-same :
      (i : ℕ) (v : V) (a : TArray V)
      → HasCells a.cells a.max
      → i < a.max
      → read (write i v a).cells i ≡ some v
  unfolding write
  write-same i v a h l = put-same i a.max v a.cells h l

  pub SameSize-trans : (a b c : TArray V) → SameSize a b → SameSize b c → SameSize a c
  unfolding SameSize
  SameSize-trans a b c (count, max, h) (count', max', h') = (count' ∙ count, max' ∙ max, h')

  pub SameSize-HasCells : (a b : TArray V) → SameSize a b → HasCells b.cells b.max
  unfolding SameSize
  SameSize-HasCells a b (count, max, h) = h

  pub SameSize-max : (a b : TArray V) → SameSize a b → b.max ≡ a.max
  unfolding SameSize
  SameSize-max a b (count, max, h) = max

  pub SameSize-count : (a b : TArray V) → SameSize a b → b.count ≡ a.count
  unfolding SameSize
  SameSize-count a b (count, max, h) = count

  pub unchanged_size : (a : TArray V) → HasCells a.cells a.max → SameSize a a
  unfolding SameSize
  unchanged_size a h = (refl, refl, h)

  pub fill-SameSize :
      (zeroed : V) (n i : ℕ) (a : TArray V)
      → HasCells a.cells a.max
      → SameSize a (fill zeroed n i a)
  unfolding fill
  fill-SameSize zeroed zero i a h = unchanged_size a h
  fill-SameSize zeroed (suc n) i a h =
      let b = write i zeroed a in
      let same = write-SameSize i zeroed a h in
      SameSize-trans a b (fill zeroed n (suc i) b) same
        (fill-SameSize zeroed n (suc i) b (SameSize-HasCells a b same))

  pub fill-before :
      (zeroed : V) (n i j : ℕ) (a : TArray V)
      → j < i
      → read (fill zeroed n i a).cells j ≡ read a.cells j
  unfolding fill
  fill-before zeroed zero i j a l = refl
  fill-before zeroed (suc n) i j a l =
      fill-before zeroed n (suc i) j (write i zeroed a) (omega arith)
      ∙ write-other i j zeroed a (λ same. absurd (omega arith))

  pub fill-inside :
      (zeroed : V) (n i j : ℕ) (a : TArray V)
      → HasCells a.cells a.max
      → i ≤ j
      → j < i + n
      → j < a.max
      → read (fill zeroed n i a).cells j ≡ some zeroed
  unfolding fill
  fill-inside zeroed zero i j a h l u m = absurd (omega arith)
  fill-inside zeroed (suc n) i j a h l u m =
      let b = write i zeroed a in
      let same = write-SameSize i zeroed a h in
      let max = SameSize-max a b same in
      elim (Bool-cases (leb j i)) [
        | inl e ↦
            let first : i ≡ j = ground arith in
            subst (λ k. read (fill zeroed n (suc i) b).cells k ≡ some zeroed) first
              (fill-before zeroed n (suc i) i b (omega arith)
                ∙ write-same i zeroed a h (omega (arith, first)))
        | inr e ↦
            fill-inside zeroed n (suc i) j b (SameSize-HasCells a b same) (ground arith)
              (omega arith) (omega (arith, max))
      ]
