-- ===== src/Memory/MultiScan/Counts.antt =====
-- src/unrealsdk/multi_sigscan.h, `multi_sigscan_preprocess`: the counts of bytes, and the byte picked.
use unrealsdk.Base.{
  ℕ, zero, suc, ◌+◌, ◌<◌, ◌≤◌, ◌≡◌, refl, sym, ap, ◌∙◌, subst, Bool, true, false, ◌==◌, not, ltb,
  ◌&&◌, if◌then◌else◌, inl, inr, ◌⊎◌, List, [], ◌∷◌, length, arith, Bool-cases, ℕ_discrete,
}
use unrealsdk.Memory.MultiScan.{
  MultiPattern, saturating_add, add_seen, set_at, count_bytes, count_patterns, pick_byte,
}
use unrealsdk.Memory.MultiScan.Anchors.{HasByte, count_bytes_sound, count_bytes_complete}

unfoldable pub AllHave : ℕ → List MultiPattern → Type 0
AllHave b [] = Unit
AllHave b (p ∷ ps) = HasByte p b × AllHave b ps

module _ (b : ℕ) where
  seen_sound :
      (p : MultiPattern) (counts : ℕ → ℕ)
      → (count_bytes p 0 p.pattern_size counts (λ b. false)).1 b ≡ true
      → HasByte p b
  unfolding HasByte
  seen_sound p counts e = elim (count_bytes_sound p b 0 p.pattern_size counts (λ b. false) e) [
    | inl s ↦ absurd (ground (arith, s))
    | inr a ↦ a
  ]

  add_seen_upper :
      (seen : ℕ → Bool) (with_byte : ℕ → ℕ) → add_seen seen with_byte b ≤ suc (with_byte b)
  unfolding add_seen saturating_add
  add_seen_upper seen with_byte = ground arith

  count_patterns_upper :
      (ps : List MultiPattern) (counts with_byte : ℕ → ℕ)
      → (count_patterns ps counts with_byte).1 b ≤ with_byte b + length ps
  unfolding count_patterns
  count_patterns_upper [] counts with_byte = omega arith
  count_patterns_upper (p ∷ ps) counts with_byte =
      let r = count_bytes p 0 p.pattern_size counts (λ b. false) in
      omega
        (arith, count_patterns_upper ps r.0 (add_seen r.1 with_byte), add_seen_upper r.1 with_byte)

  pub count_patterns_sound :
      (ps : List MultiPattern) (counts with_byte : ℕ → ℕ)
      → with_byte b + length ps ≤ (count_patterns ps counts with_byte).1 b
      → AllHave b ps
  unfolding count_patterns AllHave add_seen
  count_patterns_sound [] counts with_byte l = tt
  count_patterns_sound (p ∷ ps) counts with_byte l =
      let r = count_bytes p 0 p.pattern_size counts (λ b. false) in
      let upper = add_seen_upper r.1 with_byte in
      elim (Bool-cases (r.1 b)) [
        | inl e ↦ (
          seen_sound p counts e,
          count_patterns_sound ps r.0 (add_seen r.1 with_byte) (omega arith),
        )
        | inr e ↦
            let rest = count_patterns_upper ps r.0 (add_seen r.1 with_byte) in
            let same : add_seen r.1 with_byte b ≡ with_byte b = ground arith in absurd (omega arith)
      ]

  pub count_patterns_complete :
      (ps : List MultiPattern) (counts with_byte : ℕ → ℕ)
      → AllHave b ps
      → with_byte b + length ps ≤ 255
      → (count_patterns ps counts with_byte).1 b ≡ with_byte b + length ps
  unfolding count_patterns saturating_add AllHave HasByte add_seen
  count_patterns_complete [] counts with_byte h l = omega arith
  count_patterns_complete (p ∷ ps) counts with_byte h l =
      let r = count_bytes p 0 p.pattern_size counts (λ b. false) in
      let seen : r.1 b ≡ true = count_bytes_complete p b 0 p.pattern_size counts (λ b. false) h.0 in
      let next : add_seen r.1 with_byte b ≡ suc (with_byte b) = ground arith in
      omega (arith, next, count_patterns_complete ps r.0 (add_seen r.1 with_byte) h.1 (omega arith))

-- Counts never exceed what a byte holds.
unfoldable pub Small : (ℕ → ℕ) → Type 0
Small counts = (b : ℕ) → counts b ≤ 255

counted-Small :
    (c : Bool) (counts : ℕ → ℕ) (b : ℕ)
    → Small counts
    → Small (if c then set_at counts b (saturating_add (counts b)) else counts)
unfolding Small set_at saturating_add
counted-Small c counts b h j = ground (arith, h j, h b)

count_bytes-Small :
    (p : MultiPattern) (i n : ℕ) (counts : ℕ → ℕ) (seen : ℕ → Bool)
    → Small counts
    → Small (count_bytes p i n counts seen).0
unfolding count_bytes
count_bytes-Small p i zero counts seen h = h
count_bytes-Small p i (suc n) counts seen h =
    count_bytes-Small p (suc i) n _ _ (counted-Small (p.mask i == 255) counts (p.bytes i) h)

pub count_patterns-Small :
    (ps : List MultiPattern) (counts with_byte : ℕ → ℕ)
    → Small counts
    → Small (count_patterns ps counts with_byte).0
unfolding count_patterns
count_patterns-Small [] counts with_byte h = h
count_patterns-Small (p ∷ ps) counts with_byte h =
    count_patterns-Small ps _ _ (count_bytes-Small p 0 p.pattern_size counts _ h)

-- The byte and the count that the loop over the values from `i`, with `k` left, ends with: those it
-- started with, or those of a value in all `n` patterns.
unfoldable pub PickOf : (ℕ → ℕ) → (ℕ → ℕ) → ℕ → ℕ → ℕ → ℕ → ℕ → ℕ × ℕ → Type 0
PickOf counts with_byte n i k byte found r =
    (r.1 ≤ found)
    × ((j : ℕ) → i ≤ j → j < i + k → n ≤ with_byte j → r.1 ≤ counts j)
    × (((r.0 ≡ byte) × (r.1 ≡ found))
        ⊎ ((i ≤ r.0) × (r.0 < i + k) × (n ≤ with_byte r.0) × (r.1 ≡ counts r.0)))

module _ (counts with_byte : ℕ → ℕ) (n : ℕ) where
  -- One round, whose test has the value `c`.
  pick_round :
      (c : Bool) (i k byte found : ℕ) (r : ℕ × ℕ)
      → (c ≡ (not (ltb (with_byte i) n) && ltb (counts i) found))
      → PickOf counts with_byte n
          (suc i)
          k
          (if c then i else byte)
          (if c then counts i else found)
          r
      → PickOf counts with_byte n i (suc k) byte found r
  unfolding PickOf
  pick_round true i k byte found r e (most, least, kept) = (
    ground arith,
    λ j l u h. elim (ℕ_discrete i j) [
      | yes same ↦ subst (λ x. r.1 ≤ counts x) same most
      | no other ↦ least j (omega arith) (omega arith) h
    ],
    elim kept [
      | inl (at, count) ↦ inr (
        omega arith,
        omega arith,
        subst (λ x. n ≤ with_byte x) (sym at) (ground arith),
        count ∙ ap counts (sym at),
      )
      | inr (l, u, h, count) ↦ inr (omega arith, omega arith, h, count)
    ],
  )
  pick_round false i k byte found r e (most, least, kept) = (
    most,
    λ j l u h. elim (ℕ_discrete i j) [
      | yes same ↦
          let h2 : n ≤ with_byte i = subst (λ x. n ≤ with_byte x) (sym same) h in
          let m : found ≤ counts i = ground arith in subst (λ x. r.1 ≤ counts x) same (omega arith)
      | no other ↦ least j (omega arith) (omega arith) h
    ],
    elim kept [
      | inl same ↦ inl same
      | inr (l, u, h, count) ↦ inr (omega arith, omega arith, h, count)
    ],
  )

  pub pick_byte-PickOf :
      (i k byte found : ℕ)
      → PickOf counts with_byte n i k byte found (pick_byte counts with_byte n i k byte found)
  unfolding pick_byte PickOf
  pick_byte-PickOf i zero byte found =
      (omega arith, λ j l u h. absurd (omega arith), inl (refl, refl))
  pick_byte-PickOf i (suc k) byte found =
      pick_round (not (ltb (with_byte i) n) && ltb (counts i) found) i k byte found _ refl
        (pick_byte-PickOf (suc i) k _ _)
