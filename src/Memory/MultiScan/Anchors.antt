-- ===== src/Memory/MultiScan/Anchors.antt =====
-- src/unrealsdk/multi_sigscan.h, `multi_sigscan_preprocess`: the loops over the bytes of one pattern.
use unrealsdk.Base.{
  ℕ, zero, suc, ◌+◌, ◌<◌, ◌≤◌, ◌≡◌, Bool, true, ◌==◌, inl, inr, ◌⊎◌, none, some, arith, Bool-cases,
  ℕ_discrete,
}
use unrealsdk.Memory.MultiScan.{MultiPattern, set_at, count_bytes, find_anchor}

-- The byte is in the pattern, and the mask leaves all of it.
unfoldable pub IsAnchor : MultiPattern → ℕ → ℕ → Type 0
IsAnchor p b j = (p.mask j ≡ 255) × (p.bytes j ≡ b)

-- The byte is in the part of the pattern from `i`, with `n` bytes.
unfoldable pub AnchorIn : MultiPattern → ℕ → ℕ → ℕ → Type 0
AnchorIn p b i n = (j : ℕ) × (i ≤ j) × (j < i + n) × IsAnchor p b j

unfoldable pub HasByte : MultiPattern → ℕ → Type 0
HasByte p b = AnchorIn p b 0 p.pattern_size

module _ (p : MultiPattern) (b : ℕ) where
  pub count_bytes_kept :
      (i n : ℕ) (counts : ℕ → ℕ) (seen : ℕ → Bool)
      → seen b ≡ true
      → (count_bytes p i n counts seen).1 b ≡ true
  unfolding count_bytes set_at
  count_bytes_kept i zero counts seen e = e
  count_bytes_kept i (suc n) counts seen e = count_bytes_kept (suc i) n _ _ (ground arith)

  pub count_bytes_sound :
      (i n : ℕ) (counts : ℕ → ℕ) (seen : ℕ → Bool)
      → (count_bytes p i n counts seen).1 b ≡ true
      → (seen b ≡ true) ⊎ AnchorIn p b i n
  unfolding count_bytes set_at AnchorIn IsAnchor
  count_bytes_sound i zero counts seen e = inl e
  count_bytes_sound i (suc n) counts seen e = elim (count_bytes_sound (suc i) n _ _ e) [
    | inl s ↦ elim (Bool-cases (p.mask i == 255)) [
      | inl m ↦ elim (ℕ_discrete (p.bytes i) b) [
        | yes same ↦ inr (i, omega arith, omega arith, (ground arith, same))
        | no other ↦ inl (ground arith)
      ]
      | inr m ↦ inl (ground arith)
    ]
    | inr (j, l, u, a) ↦ inr (j, omega arith, omega arith, a)
  ]

  pub count_bytes_complete :
      (i n : ℕ) (counts : ℕ → ℕ) (seen : ℕ → Bool)
      → AnchorIn p b i n
      → (count_bytes p i n counts seen).1 b ≡ true
  unfolding count_bytes set_at AnchorIn IsAnchor
  count_bytes_complete i zero counts seen (j, l, u, a) = absurd (omega arith)
  count_bytes_complete i (suc n) counts seen (j, l, u, (a, e)) = elim (ℕ_discrete i j) [
    | yes same ↦ count_bytes_kept (suc i) n _ _ (ground arith)
    | no other ↦ count_bytes_complete (suc i) n _ _ (j, omega arith, omega arith, (a, e))
  ]

-- The first anchor in a part of a pattern, when there is one.
pub find_anchor_found :
    (p : MultiPattern) (b i n j : ℕ)
    → find_anchor p b i n ≡ some j
    → (i ≤ j) × (j < i + n) × IsAnchor p b j
unfolding find_anchor IsAnchor
find_anchor_found p b i zero j e = absurd (ground arith)
find_anchor_found p b i (suc n) j e = elim (Bool-cases (p.mask i == 255)) [
  | inl m ↦ elim (Bool-cases (p.bytes i == b)) [
    | inl s ↦
        let same : i ≡ j = ground arith in (omega arith, omega arith, (ground arith, ground arith))
    | inr s ↦
        let r = find_anchor_found p b (suc i) n j (ground arith) in
        (omega (arith, r.0), omega (arith, r.1), r.2)
  ]
  | inr m ↦
      let r = find_anchor_found p b (suc i) n j (ground arith) in
      (omega (arith, r.0), omega (arith, r.1), r.2)
]

pub find_anchor_absent :
    (p : MultiPattern) (b i n : ℕ) → find_anchor p b i n ≡ none → ¬ AnchorIn p b i n
unfolding find_anchor IsAnchor AnchorIn
find_anchor_absent p b i zero e (j, l, u, a) = absurd (omega arith)
find_anchor_absent p b i (suc n) e (j, l, u, (m, s)) = elim (ℕ_discrete i j) [
  | yes same ↦ absurd (ground arith)
  | no other ↦ find_anchor_absent p b (suc i) n (ground arith) (j, omega arith, omega arith, (m, s))
]
