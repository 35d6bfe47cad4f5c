-- ===== src/Memory/MultiScan/Results.antt =====
-- src/unrealsdk/multi_sigscan.h: the result that the threads leave in each pattern, in whatever order
-- they run.
use native.Mathlib.Nat.{mod-eq_of_lt}
use unrealsdk.Base.{
  ℕ, zero, suc, ◌+◌, ◌-◌, ◌%◌, ◌^◌, ◌<◌, ◌≤◌, ◌≡◌, ◌↔◌, refl, sym, ap, ◌∙◌, subst, Bool, true,
  false, ◌==◌, ltb, if◌then◌else◌, inl, inr, ◌⊎◌, arith, Bool-cases, ℕ_discrete, ==_iff,
}
use unrealsdk.Memory.{Bytes, is_found}
use unrealsdk.Memory.Scan.{Matches, is_found-Matches, not_found-Matches, wrapped_difference}
use unrealsdk.Memory.MultiScan.{MultiPattern, new_result}
use unrealsdk.Memory.MultiScan.Threads.{try_result, each_result}

-- A result is 0 while no position of a set was found, and else the least one, moved by `shift`.
unfoldable pub LeastOf : (ℕ → Type 0) → ℕ → ℕ → Type 0
LeastOf Found shift r =
    ((r ≡ 0) × ((a : ℕ) → ¬ Found a))
    ⊎ ((a : ℕ) × Found a × (0 < a) × (r ≡ a + shift) × ((b : ℕ) → Found b → a ≤ b))

module _ (P Q : ℕ → Type 0) where
  pub LeastOf-respects :
      (shift r : ℕ)
      → ((a : ℕ) → P a → Q a)
      → ((a : ℕ) → Q a → P a)
      → LeastOf P shift r
      → LeastOf Q shift r
  unfolding LeastOf
  LeastOf-respects shift r to from (inl (e, h)) = inl (e, λ a q. h a (from a q))
  LeastOf-respects shift r to from (inr (a, p, above, e, h)) =
      inr (a, to a p, above, e, λ b q. h b (from b q))

-- A result that a test guards, where the test fails only when there is nothing new.
guarded-LeastOf :
    (c : Bool) (P N : ℕ → Type 0) (shift r v : ℕ)
    → (c ≡ true → LeastOf (λ b. P b ⊎ N b) shift v)
    → (c ≡ false → (b : ℕ) → ¬ N b)
    → LeastOf P shift r
    → LeastOf (λ b. P b ⊎ N b) shift (if c then v else r)
guarded-LeastOf true P N shift r v found missed least = found refl
guarded-LeastOf false P N shift r v found missed least =
    LeastOf-respects P (λ b. P b ⊎ N b) shift r (λ b q. inl q)
      (λ b q. elim q [ inl kept ↦ kept | inr new ↦ absurd (missed refl b new) ]) least

new_result-LeastOf :
    (P : ℕ → Type 0) (shift r a : ℕ)
    → 0 < a
    → LeastOf P shift r
    → LeastOf (λ b. P b ⊎ (b ≡ a)) shift (new_result r (a + shift))
unfolding LeastOf new_result
new_result-LeastOf P shift r a above (inl (e, h)) = inr (
  a,
  inr refl,
  above,
  ground arith,
  λ b found. elim found [ inl p ↦ absurd (h b p) | inr same ↦ omega arith ],
)
new_result-LeastOf P shift r a above (inr (c, p, above_c, e, h)) = elim (Bool-cases (ltb c a)) [
  | inl l ↦ inr (
    c,
    inl p,
    above_c,
    ground arith,
    λ b found. elim found [ inl q ↦ h b q | inr same ↦ ground arith ],
  )
  | inr l ↦ inr (
    a,
    inr refl,
    above,
    ground arith,
    λ b found. elim found [ inl q ↦ let least = h b q in ground arith | inr same ↦ omega arith ],
  )
]

module _ (memory : Bytes) (w : ℕ) where
  -- The pattern is at `a`, and its anchor is one of the bytes of value `byte` among `n` from `pos`.
  unfoldable pub FoundIn : ℕ → ℕ → ℕ → MultiPattern → ℕ → Type 0
  FoundIn byte pos n p a =
      (pos ≤ a + p.start_offset)
      × (a + p.start_offset < pos + n)
      × (memory (a + p.start_offset) ≡ byte)
      × Matches memory p.bytes p.mask p.pattern_size a

  try_result_at :
      (m : ℕ) (p : MultiPattern) (r : ℕ)
      → p.start_offset < m
      → m + p.offset < 2 ^ w
      → try_result memory w m p r ≡ (
          if is_found memory p.bytes p.mask (m - p.start_offset) 0 p.pattern_size
          then new_result r (m - p.start_offset + p.offset)
          else r)
  unfolding try_result
  try_result_at m p r l u =
      ap
        (λ s.
          if is_found memory p.bytes p.mask s 0 p.pattern_size
          then new_result r ((s + p.offset) % 2 ^ w)
          else r)
        (wrapped_difference w m p.start_offset (omega arith) (omega arith))
      ∙ ap
          (λ v.
            if is_found memory p.bytes p.mask (m - p.start_offset) 0 p.pattern_size
            then new_result r v
            else r)
          (mod-eq_of_lt (omega arith))

  try_result-LeastOf :
      (P : ℕ → Type 0) (m : ℕ) (p : MultiPattern) (r : ℕ)
      → p.start_offset < m
      → m + p.offset < 2 ^ w
      → LeastOf P p.offset r
      → LeastOf
          (λ b. P b ⊎ ((b + p.start_offset ≡ m) × Matches memory p.bytes p.mask p.pattern_size b))
          p.offset
          (try_result memory w m p r)
  try_result-LeastOf P m p r l u least =
      let at = m - p.start_offset in
      let HasMatch = Matches memory p.bytes p.mask p.pattern_size in
      let New : ℕ → Type 0 = λ b. (b + p.start_offset ≡ m) × HasMatch b in
      subst (LeastOf (λ b. P b ⊎ New b) p.offset) (sym (try_result_at m p r l u)) (
        guarded-LeastOf (is_found memory p.bytes p.mask at 0 p.pattern_size) P New p.offset r
          (new_result r (at + p.offset))
          (λ e.
            LeastOf-respects (λ b. P b ⊎ (b ≡ at)) (λ b. P b ⊎ New b) p.offset _
              (λ b found. elim found [
                | inl q ↦ inl q
                | inr same ↦ inr (
                  omega arith,
                  subst HasMatch (sym same)
                      (is_found-Matches memory p.bytes p.mask p.pattern_size at e),
                )
              ])
              (λ b found. elim found [ inl q ↦ inl q | inr (same, q) ↦ inr (omega arith) ])
              (new_result-LeastOf P p.offset r at (omega arith) least))
          (λ e b (same, q).
            not_found-Matches memory p.bytes p.mask p.pattern_size at e
              (subst HasMatch (omega arith) q))
          least)

  -- One byte, and the ones after it.
  FoundIn-split :
      (byte pos n : ℕ) (p : MultiPattern) (a : ℕ)
      → FoundIn byte pos (suc n) p a ↔ (FoundIn byte pos 1 p a ⊎ FoundIn byte (suc pos) n p a)
  unfolding FoundIn
  FoundIn-split byte pos n p a = (
    λ (l, u, e, q). elim (ℕ_discrete pos (a + p.start_offset)) [
      | yes same ↦ inl (l, omega arith, e, q)
      | no other ↦ inr (omega arith, omega arith, e, q)
    ],
    λ found. elim found [
      | inl (l, u, e, q) ↦ (l, omega arith, e, q)
      | inr (l, u, e, q) ↦ (omega arith, omega arith, e, q)
    ],
  )

  first-LeastOf :
      (P : ℕ → Type 0) (byte pos : ℕ) (p : MultiPattern) (r : ℕ)
      → p.start_offset < pos
      → pos + p.offset < 2 ^ w
      → LeastOf P p.offset r
      → LeastOf
          (λ a. P a ⊎ FoundIn byte pos 1 p a)
          p.offset
          (if memory pos == byte then try_result memory w pos p r else r)
  unfolding FoundIn
  first-LeastOf P byte pos p r l u least =
      let New : ℕ → Type 0 =
        λ b. (b + p.start_offset ≡ pos) × Matches memory p.bytes p.mask p.pattern_size b in
      guarded-LeastOf (memory pos == byte) P (FoundIn byte pos 1 p) p.offset r
        (try_result memory w pos p r)
        (λ e.
          LeastOf-respects (λ b. P b ⊎ New b) (λ b. P b ⊎ FoundIn byte pos 1 p b) p.offset _
            (λ b found. elim found [
              | inl q ↦ inl q
              | inr (same, q) ↦ inr (omega arith, omega arith, ap memory same ∙ (==_iff _ _).0 e, q)
            ])
            (λ b found. elim found [ inl q ↦ inl q | inr (lo, hi, at, q) ↦ inr (omega arith, q) ])
            (try_result-LeastOf P pos p r l u least))
        (λ e b (lo, hi, at, q).
          let same : b + p.start_offset ≡ pos = omega arith in
          let found : memory pos ≡ byte = subst (λ m. memory m ≡ byte) same at in
          ground (arith, found))
        least

  pub each_result-LeastOf :
      (P : ℕ → Type 0) (byte pos n : ℕ) (p : MultiPattern) (r : ℕ)
      → p.start_offset < pos
      → pos + n + p.offset ≤ 2 ^ w
      → LeastOf P p.offset r
      → LeastOf (λ a. P a ⊎ FoundIn byte pos n p a) p.offset (each_result memory w byte pos n p r)
  unfolding each_result FoundIn
  each_result-LeastOf P byte pos zero p r l u least =
      LeastOf-respects P (λ a. P a ⊎ FoundIn byte pos 0 p a) p.offset r (λ a q. inl q)
        (λ a found. elim found [ inl q ↦ q | inr (lo, hi, at, q) ↦ absurd (omega arith) ]) least
  each_result-LeastOf P byte pos (suc n) p r l u least =
      LeastOf-respects (λ a. (P a ⊎ FoundIn byte pos 1 p a) ⊎ FoundIn byte (suc pos) n p a)
        (λ a. P a ⊎ FoundIn byte pos (suc n) p a) p.offset _
        (λ a found. elim found [
          | inl (inl q) ↦ inl q
          | inl (inr first) ↦ inr ((FoundIn-split byte pos n p a).1 (inl first))
          | inr rest ↦ inr ((FoundIn-split byte pos n p a).1 (inr rest))
        ])
        (λ a found. elim found [
          | inl q ↦ inl (inl q)
          | inr here ↦ elim ((FoundIn-split byte pos n p a).0 here) [
            | inl first ↦ inl (inr first)
            | inr rest ↦ inr rest
          ]
        ])
        (each_result-LeastOf (λ a. P a ⊎ FoundIn byte pos 1 p a) byte (suc pos) n p _ (omega arith)
          (omega arith) (first-LeastOf P byte pos p r l (omega arith) least))
