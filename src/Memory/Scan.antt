-- ===== src/Memory/Scan.antt =====
-- src/unrealsdk/memory.cpp, `sigscan`: the positions that a scan tries, and what it finds.
use Prim.Native.Nat.{bit_and}
use native.Mathlib.Nat.{add-mod_right, mod-eq_of_lt}
use unrealsdk.Base.{
  ℕ, zero, suc, ◌+◌, ◌-◌, ◌%◌, ◌^◌, ◌<◌, ◌≤◌, ◌≡◌, ◌≢◌, refl, sym, ◌∙◌, subst, ap, true, false, inl,
  inr, ◌⊎◌, arith, Bool-cases, ℕ_discrete,
}
use unrealsdk.Memory.{Bytes, is_found, scan_from, sigscan}

pub wrapped_difference : (w a b : ℕ) → b ≤ a → a < 2 ^ w → (a + 2 ^ w - b) % 2 ^ w ≡ a - b
wrapped_difference w a b l u =
    ap (λ n. n % 2 ^ w) (omega arith) ∙ add-mod_right (a - b) (2 ^ w) ∙ mod-eq_of_lt (omega arith)

module _ (memory bytes mask : Bytes) where
  -- The bytes at an address agree with the pattern under its mask.
  unfoldable pub Matches : ℕ → ℕ → Type 0
  Matches pattern_size address =
      (j : ℕ) → j < pattern_size → bit_and (memory (address + j)) (mask j) ≡ bytes j

  pub is_found_sound :
      (address j n i : ℕ)
      → is_found memory bytes mask address j n ≡ true
      → j ≤ i
      → i < j + n
      → bit_and (memory (address + i)) (mask i) ≡ bytes i
  unfolding is_found
  is_found_sound address j zero i e l u = absurd (omega arith)
  is_found_sound address j (suc n) i e l u = elim (ℕ_discrete j i) [
    | yes p ↦ subst (λ k. bit_and (memory (address + k)) (mask k) ≡ bytes k) p (ground arith)
    | no p ↦ is_found_sound address (suc j) n i (ground arith) (omega arith) (omega arith)
  ]

  pub is_found_complete :
      (address j n : ℕ)
      → ((i : ℕ) → j ≤ i → i < j + n → bit_and (memory (address + i)) (mask i) ≡ bytes i)
      → is_found memory bytes mask address j n ≡ true
  unfolding is_found
  is_found_complete address j zero h = refl
  is_found_complete address j (suc n) h = ground (
    arith,
    h j (omega arith) (omega arith),
    is_found_complete address (suc j) n (λ i l u. h i (omega arith) (omega arith)),
  )

  -- A result is the first match among `n` positions, and no result says there is none.
  unfoldable pub FirstOf : ℕ → ℕ → ℕ → ℕ → Type 0
  FirstOf pattern_size start n found =
      ((found ≡ 0) × ((i : ℕ) → i < n → ¬ Matches pattern_size (start + i)))
      ⊎ ((i : ℕ) × (i < n)
          × (found ≡ start + i)
          × Matches pattern_size (start + i)
          × ((k : ℕ) → k < i → ¬ Matches pattern_size (start + k)))

  pub is_found-Matches :
      (pattern_size address : ℕ)
      → is_found memory bytes mask address 0 pattern_size ≡ true
      → Matches pattern_size address
  unfolding Matches
  is_found-Matches pattern_size address e j l =
      is_found_sound address 0 pattern_size j e (omega arith) (omega arith)

  pub not_found-Matches :
      (pattern_size address : ℕ)
      → is_found memory bytes mask address 0 pattern_size ≡ false
      → ¬ Matches pattern_size address
  unfolding Matches
  not_found-Matches pattern_size address e m =
      absurd (ground (arith, is_found_complete address 0 pattern_size (λ i l u. m i (omega arith))))

  none_from_next :
      (pattern_size start n : ℕ)
      → ¬ Matches pattern_size start
      → ((i : ℕ) → i < n → ¬ Matches pattern_size (suc start + i))
      → (i : ℕ) → i < suc n
      → ¬ Matches pattern_size (start + i)
  none_from_next pattern_size start n no_match h zero l =
      subst (λ a. ¬ Matches pattern_size a) (omega arith) no_match
  none_from_next pattern_size start n no_match h (suc i) l =
      subst (λ a. ¬ Matches pattern_size a) (omega arith) (h i (omega arith))

  scan_from-FirstOf :
      (pattern_size start n : ℕ)
      → FirstOf pattern_size start n (scan_from memory bytes mask pattern_size start n)
  unfolding scan_from FirstOf
  scan_from-FirstOf pattern_size start zero = inl (refl, λ i l. absurd (omega arith))
  scan_from-FirstOf pattern_size start (suc n) =
      elim (Bool-cases (is_found memory bytes mask start 0 pattern_size)) [
        | inl e ↦ inr (
          0,
          omega arith,
          ground arith,
          subst (Matches pattern_size) (omega arith) (is_found-Matches pattern_size start e),
          λ k l. absurd (omega arith),
        )
        | inr e ↦
            let no_match = not_found-Matches pattern_size start e in
            elim (scan_from-FirstOf pattern_size (suc start) n) [
              | inl (none_found, h) ↦
                  inl (ground arith, none_from_next pattern_size start n no_match h)
              | inr (i, l, found, m, h) ↦ inr (
                suc i,
                omega arith,
                ground arith,
                subst (Matches pattern_size) (omega arith) m,
                none_from_next pattern_size start i no_match h,
              )
            ]
      ]

  -- A scan of a range that is larger than the pattern returns the first position where the pattern
  -- matches, of those before the last one, or 0 when it matches at none of these.
  pub sigscan_first :
      (w pattern_size start size : ℕ)
      → pattern_size ≤ size
      → size < 2 ^ w
      → FirstOf pattern_size start
          (size - pattern_size)
          (sigscan memory bytes mask w pattern_size start size)
  unfolding sigscan
  sigscan_first w pattern_size start size l u =
      subst
        (λ n.
          FirstOf pattern_size start (size - pattern_size)
            (scan_from memory bytes mask pattern_size start n))
        (sym (wrapped_difference w size pattern_size l u))
        (scan_from-FirstOf pattern_size start (size - pattern_size))

  -- The last position at which a pattern fits into the range is never returned: a pattern that
  -- matches there and at no earlier position is not found.
  pub sigscan_misses_last :
      (w pattern_size start size : ℕ)
      → pattern_size ≤ size
      → size < 2 ^ w
      → 0 < start
      → sigscan memory bytes mask w pattern_size start size ≢ start + (size - pattern_size)
  unfolding FirstOf
  sigscan_misses_last w pattern_size start size l u s e =
      elim (sigscan_first w pattern_size start size l u) [
        | inl (none_found, h) ↦ omega arith
        | inr (i, before, found, m, h) ↦ omega arith
      ]
