-- ===== src/Unreal/TArray.antt =====
-- src/unrealsdk/unreal/structs/tarray.h and tarray_funcs.h: the engine's dynamic array. Its memory is the
-- list of its cells, as many as the capacity; the engine's allocator is a parameter, which says by the
-- number of bytes whether it gives memory.
pub mod Sizes
pub mod Resize
use unrealsdk.Base.{
  ℕ, zero, suc, ◌+◌, ◌-◌, ◌*◌, ◌/◌, ◌%◌, ◌≡◌, refl, Bool, true, false, if◌then◌else◌, ◌==◌, leb,
  ltb, ◌&&◌, Option, none, some, List, [], ◌∷◌, ◌++◌, get_elem?, take, length,
}

abbrev pub max_capacity : ℕ
max_capacity = 2147483647

module _ {ℓ} {A : Type ℓ} where
  unfoldable pub replicate : ℕ → A → List A
  replicate zero a = []
  replicate (suc n) a = a ∷ replicate n a

pub record TArray {ℓ} (A : Type ℓ) : Type ℓ where
  pub cells : Option (List A)
  pub count : ℕ
  pub max : ℕ

pub data ArrayError : Type 0 where
  max_capacity_exceeded : ArrayError
  allocation_failed : ArrayError
  out_of_range : ArrayError

-- The capacity that `resize` asks for; `size_t` has 64 bits.
unfoldable pub grown_capacity : ℕ → ℕ
grown_capacity new_size =
    if leb new_size 4
    then 4
    else (new_size + 3 * new_size % 18446744073709551616 / 8 + 16) % 18446744073709551616

module _ {ℓ} {A : Type ℓ} where
  unfoldable pub free : TArray A → TArray A
  free a = record { cells = none; count = 0; max = 0 }

  unfoldable pub with_count : ℕ → TArray A → TArray A
  with_count new_size a = record { cells = a.cells; count = new_size % 4294967296; max = a.max }

  -- The count changes once `reserve` has not thrown.
  unfoldable pub resized : ℕ → TArray A × Option ArrayError → TArray A × Option ArrayError
  resized new_size (a, none) = (with_count new_size a, none)
  resized new_size (a, some e) = (a, some e)

-- `allocates` is the engine's answer to a request, `junk` what stands in memory it gives, and `zeroed`
-- an element whose bytes are all zero.
module _ {ℓ} {A : Type ℓ} (allocates : ℕ → Bool) (junk zeroed : A) (element_size : ℕ) where
  -- `u_malloc`, or `u_realloc`, which keeps as many of the cells as fit.
  unfoldable pub allocated : ℕ → Option (List A) → List A
  allocated new_cap none = replicate new_cap junk
  allocated new_cap (some cells) = take new_cap (cells ++ replicate new_cap junk)

  -- `memset` of the cells from `from` on.
  unfoldable pub zeroed_from : ℕ → List A → List A
  zeroed_from n cells = take n cells ++ replicate (length cells - n) zeroed

  unfoldable pub reserved_cells : ℕ → ℕ → Option (List A) → List A
  reserved_cells new_cap old_cap cells =
      if ltb 0 old_cap && ltb old_cap new_cap
      then zeroed_from old_cap (allocated new_cap cells)
      else allocated new_cap cells

  -- `reserve`, with the exception it throws, if any.
  unfoldable pub reserve : ℕ → TArray A → TArray A × Option ArrayError
  reserve new_cap a =
      if ltb max_capacity new_cap
      then (a, some max_capacity_exceeded)
      else if new_cap == a.max
      then (a, none)
      else if allocates (new_cap * element_size)
      then (
        record {
          cells = some (reserved_cells new_cap (a.max) (a.cells));
          count = a.count;
          max = new_cap;
        },
        none,
      )
      else (a, some allocation_failed)

  unfoldable pub resize : ℕ → TArray A → TArray A × Option ArrayError
  resize new_size a =
      if ltb (a.max) new_size
      then resized new_size (reserve (grown_capacity new_size) a)
      else (with_count new_size a, none)

module _ {ℓ} {A : Type ℓ} where
  -- `operator[]`, which reads memory, and `at`, which checks the index.
  unfoldable pub read : Option (List A) → ℕ → Option A
  read none idx = none
  read (some cells) idx = get_elem? cells idx

  unfoldable pub at : TArray A → ℕ → Option A
  at a idx = if leb (a.count) idx then none else read (a.cells) idx

  -- The iterator: its index while it points into the array, and `none` at the end.
  unfoldable pub begin : TArray A → Option ℕ
  begin a = if a.count == 0 then none else some 0

  unfoldable pub increment : TArray A → ℕ → Option ℕ
  increment a idx = if leb (a.count) (suc idx) then none else some (suc idx)

  -- A loop from an iterator to the end, with `fuel` rounds left.
  unfoldable pub iterate : TArray A → ℕ → Option ℕ → List (Option A)
  iterate a zero it = []
  iterate a (suc fuel) none = []
  iterate a (suc fuel) (some idx) = read (a.cells) idx ∷ iterate a fuel (increment a idx)
