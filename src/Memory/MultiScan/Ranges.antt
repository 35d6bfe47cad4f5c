-- ===== src/Memory/MultiScan/Ranges.antt =====
-- src/unrealsdk/multi_sigscan.h, `multi_sigscan`: the ranges of the threads cover the memory.
use unrealsdk.Base.{
  ℕ, zero, suc, ◌+◌, ◌-◌, ◌/◌, ◌<◌, ◌≤◌, ◌≡◌, ◌≢◌, subst, ltb, inl, inr, ◌⊎◌, some, List, [], ◌∷◌,
  arith, Bool-cases,
}
use mathlib.Core.List.{Permᴰ}
use unrealsdk.Memory.MultiScan.{max, num_threads, size_per_thread, clipped, thread_ranges}

-- The address is in one of the ranges.
unfoldable pub InSome : List (ℕ × ℕ) → ℕ → Type 0
InSome [] m = ⊥
InSome ((pos, n) ∷ ranges) m = ((pos ≤ m) × (m < pos + n)) ⊎ InSome ranges m

-- Each range lies between the two addresses.
unfoldable pub AllWithin : ℕ → ℕ → List (ℕ × ℕ) → Type 0
AllWithin lo hi [] = Unit
AllWithin lo hi ((pos, n) ∷ ranges) = ((lo ≤ pos) × (pos + n ≤ hi)) × AllWithin lo hi ranges

-- The ranges lie in the memory of `size` bytes from `start`, and cover it from `start_offset`.
unfoldable pub Covers : ℕ → ℕ → ℕ → List (ℕ × ℕ) → Type 0
Covers start size start_offset ranges =
    AllWithin start (start + size) ranges
    × ((m : ℕ) → start + start_offset ≤ m → m < start + size → InSome ranges m)

thread_ranges-Covers :
    (fuel start size per_thread overscan start_offset : ℕ)
    → 0 < per_thread
    → size - start_offset < fuel
    → (ranges : List (ℕ × ℕ)) × (thread_ranges fuel start size per_thread overscan start_offset
        ≡ some ranges)
      × Covers start size start_offset ranges
unfolding thread_ranges Covers InSome AllWithin clipped
thread_ranges-Covers zero start size per_thread overscan start_offset l u = absurd (omega arith)
thread_ranges-Covers (suc fuel) start size per_thread overscan start_offset l u =
    elim (Bool-cases (ltb start_offset size)) [
      | inl e ↦
          let (ranges, rest, (within, covers)) =
            thread_ranges-Covers fuel start size per_thread overscan (start_offset + per_thread) l
              (ground arith) in
          let n = clipped (per_thread + overscan) (size - start_offset) in
          (
            (start + start_offset, n) ∷ ranges,
            ground arith,
            (
              ((omega arith, ground arith), within),
              λ m lo hi. elim (Bool-cases (ltb m (start + start_offset + n))) [
                | inl before ↦ inl (lo, ground arith)
                | inr after ↦ inr (covers m (ground arith) hi)
              ],
            ),
          )
      | inr e ↦ ([], ground arith, (tt, λ m lo hi. absurd (ground arith)))
    ]

-- The ranges in another order.
Permᴰ-AllWithin :
    (lo hi : ℕ) (xs ys : List (ℕ × ℕ)) → Permᴰ xs ys → AllWithin lo hi xs → AllWithin lo hi ys
unfolding AllWithin
Permᴰ-AllWithin lo hi xs ys Permᴰ.nil h = h
Permᴰ-AllWithin lo hi (x ∷ xs) (y ∷ ys) (Permᴰ.cons e d) (h, t) =
    (subst (λ r. (lo ≤ r.0) × (r.0 + r.1 ≤ hi)) e h, Permᴰ-AllWithin lo hi xs ys d t)
Permᴰ-AllWithin lo hi (a ∷ b ∷ xs) (c ∷ d ∷ xs') (Permᴰ.swap e f) (h, (k, t)) = (
  subst (λ r. (lo ≤ r.0) × (r.0 + r.1 ≤ hi)) f k,
  (subst (λ r. (lo ≤ r.0) × (r.0 + r.1 ≤ hi)) e h, t),
)
Permᴰ-AllWithin lo hi xs ys (Permᴰ.trans {l₂ = zs} d e) h =
    Permᴰ-AllWithin lo hi zs ys e (Permᴰ-AllWithin lo hi xs zs d h)

Permᴰ-InSome : (m : ℕ) (xs ys : List (ℕ × ℕ)) → Permᴰ xs ys → InSome xs m → InSome ys m
unfolding InSome
Permᴰ-InSome m xs ys Permᴰ.nil h = h
Permᴰ-InSome m (x ∷ xs) (y ∷ ys) (Permᴰ.cons e d) (inl h) =
    inl (subst (λ r. (r.0 ≤ m) × (m < r.0 + r.1)) e h)
Permᴰ-InSome m (x ∷ xs) (y ∷ ys) (Permᴰ.cons e d) (inr h) = inr (Permᴰ-InSome m xs ys d h)
Permᴰ-InSome m (a ∷ b ∷ xs) (c ∷ d ∷ xs') (Permᴰ.swap e f) (inl h) =
    inr (inl (subst (λ r. (r.0 ≤ m) × (m < r.0 + r.1)) e h))
Permᴰ-InSome m (a ∷ b ∷ xs) (c ∷ d ∷ xs') (Permᴰ.swap e f) (inr (inl h)) =
    inl (subst (λ r. (r.0 ≤ m) × (m < r.0 + r.1)) f h)
Permᴰ-InSome m (a ∷ b ∷ xs) (c ∷ d ∷ xs') (Permᴰ.swap e f) (inr (inr h)) = inr (inr h)
Permᴰ-InSome m xs ys (Permᴰ.trans {l₂ = zs} d e) h =
    Permᴰ-InSome m zs ys e (Permᴰ-InSome m xs zs d h)

-- The ranges that a scan starts with, in any order, lie in the memory and cover it.
pub scheduled-Covers :
    (start size per_thread overscan : ℕ) (schedule : List (ℕ × ℕ) → List (ℕ × ℕ))
    → 0 < per_thread
    → ((ranges : List (ℕ × ℕ)) → Permᴰ ranges (schedule ranges))
    → (ranges : List (ℕ × ℕ)) × (thread_ranges (suc size) start size per_thread overscan 0
        ≡ some ranges)
      × Covers start size 0 (schedule ranges)
unfolding Covers
scheduled-Covers start size per_thread overscan schedule l perm =
    let (ranges, e, (within, covers)) =
      thread_ranges-Covers (suc size) start size per_thread overscan 0 l (omega arith) in
    (
      ranges,
      e,
      (
        Permᴰ-AllWithin start (start + size) ranges (schedule ranges) (perm ranges) within,
        λ m lo hi. Permᴰ-InSome m ranges (schedule ranges) (perm ranges) (covers m lo hi),
      ),
    )

-- With any number of cores but one, each thread has at least 4 MiB.
pub size_per_thread_lem :
    (hardware_concurrency size : ℕ)
    → hardware_concurrency ≢ 1
    → (per_thread : ℕ) × (size_per_thread hardware_concurrency size ≡ some per_thread)
      × (4194304 ≤ per_thread)
unfolding size_per_thread num_threads max
size_per_thread_lem hardware_concurrency size several =
    (max (size / num_threads hardware_concurrency) 4194304, ground arith, ground arith)

pub AllWithin-InSome :
    (lo hi m : ℕ) (ranges : List (ℕ × ℕ))
    → AllWithin lo hi ranges
    → InSome ranges m
    → (lo ≤ m) × (m < hi)
unfolding AllWithin InSome
AllWithin-InSome lo hi m [] within there = absurd there
AllWithin-InSome lo hi m ((pos, n) ∷ ranges) ((l, u), within) (inl (from, to)) =
    (omega arith, omega arith)
AllWithin-InSome lo hi m ((pos, n) ∷ ranges) (at, within) (inr there) =
    AllWithin-InSome lo hi m ranges within there
