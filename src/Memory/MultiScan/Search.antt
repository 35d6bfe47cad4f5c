-- ===== src/Memory/MultiScan/Search.antt =====
-- src/unrealsdk/multi_sigscan.h, `multi_sigscan`: what a whole search finds.
use Prim.Native.Nat.{bit_and}
use mathlib.Core.List.{Permᴰ}
use unrealsdk.Base.{
  ℕ, zero, suc, ◌+◌, ◌^◌, ◌<◌, ◌≤◌, ◌≡◌, ◌≢◌, refl, sym, ap, ◌∙◌, subst, Bool, true, false, ◌==◌,
  ℕ_discrete, if◌then◌else◌, inl, inr, ◌⊎◌, some, List, [], ◌∷◌, map, length, arith,
}
use unrealsdk.Memory.{Bytes}
use unrealsdk.Memory.Scan.{Matches}
use unrealsdk.Memory.MultiScan.{
  MultiPattern, multi_sigscan_preprocess, run_threads, size_per_thread, thread_ranges,
  multi_sigscan,
}
use unrealsdk.Memory.MultiScan.Anchors.{IsAnchor}
use unrealsdk.Memory.MultiScan.Preprocess.{
  Anchored, AllAnchored, multi_sigscan_preprocess-AllAnchored,
}
use unrealsdk.Memory.MultiScan.Ranges.{
  AllWithin-InSome, Covers, scheduled-Covers, size_per_thread_lem,
}
use unrealsdk.Memory.MultiScan.Results.{LeastOf, LeastOf-respects}
use unrealsdk.Memory.MultiScan.Runs.{
  ran_result, ran, run_threads-ran, FoundAmong, ran_result-LeastOf,
}

-- A test that a mask of 255 leaves the bytes as they are, for those from 0 up to a bound.
mask_test : ℕ → Bool
mask_test zero = true
mask_test (suc value) = if bit_and value 255 == value then mask_test value else false

mask_test_lem :
    (bound value : ℕ) → mask_test bound ≡ true → value < bound → bit_and value 255 ≡ value
unfolding mask_test
mask_test_lem zero value e l = absurd (omega arith)
mask_test_lem (suc last) value e l = elim (ℕ_discrete value last) [
  | yes same ↦ subst (λ v. bit_and v 255 ≡ v) (sym same) (ground arith)
  | no earlier ↦ mask_test_lem last value (ground arith) (omega arith)
]

all_bytes : mask_test 256 ≡ true
unfolding mask_test
all_bytes = refl

unmasked : (value : ℕ) → value < 256 → bit_and value 255 ≡ value
unmasked value = mask_test_lem 256 value all_bytes

-- Nothing was found yet, and the addresses around the memory do not wrap around.
unfoldable pub AllFresh : ℕ → ℕ → ℕ → List MultiPattern → Type 0
AllFresh w start size [] = Unit
AllFresh w start size (p ∷ ps) =
    (p.result ≡ 0)
    × (p.pattern_size ≤ start)
    × (start + size + p.offset ≤ 2 ^ w)
    × AllFresh w start size ps

module _ (memory : Bytes) (w : ℕ) where
  -- The pattern is at `a`, and its anchor is in the memory of `size` bytes from `start`.
  unfoldable pub AnchoredAt : ℕ → ℕ → MultiPattern → ℕ → Type 0
  AnchoredAt start size p a =
      (start ≤ a + p.start_offset)
      × (a + p.start_offset < start + size)
      × Matches memory p.bytes p.mask p.pattern_size a

  -- The second list has the patterns of the first, each with its first position as its result.
  unfoldable pub AllFirst : ℕ → ℕ → List MultiPattern → List MultiPattern → Type 0
  AllFirst start size [] [] = Unit
  AllFirst start size [] (r ∷ rs) = ⊥
  AllFirst start size (q ∷ qs) [] = ⊥
  AllFirst start size (q ∷ qs) (r ∷ rs) =
      (r ≡ (record q { result = r.result }))
      × LeastOf (AnchoredAt start size q) q.offset r.result
      × AllFirst start size qs rs

  anchor-FoundAmong :
      (byte overscan start size : ℕ) (ranges : List (ℕ × ℕ)) (p : MultiPattern) (a : ℕ)
      → ((m : ℕ) → memory m < 256)
      → Anchored byte overscan p
      → Covers start size 0 ranges
      → AnchoredAt start size p a
      → FoundAmong memory w byte ranges p a
  unfolding AnchoredAt FoundAmong Anchored Covers Matches IsAnchor
  anchor-FoundAmong byte overscan start size ranges p a bounded (fits, (mask, value), rest)
        (within, covers) (lo, hi, q) =
      (
        covers (a + p.start_offset) (omega arith) hi,
        sym (unmasked _ (bounded (a + p.start_offset)))
            ∙ ap (bit_and (memory (a + p.start_offset))) (sym mask)
            ∙ q p.start_offset fits
            ∙ value,
        q,
      )

  ran_result-first :
      (byte overscan start size : ℕ) (ranges : List (ℕ × ℕ)) (p : MultiPattern)
      → ((m : ℕ) → memory m < 256)
      → Anchored byte overscan p
      → Covers start size 0 ranges
      → p.pattern_size ≤ start
      → start + size + p.offset ≤ 2 ^ w
      → LeastOf (AnchoredAt start size p) p.offset (ran_result memory w byte ranges p 0)
  unfolding AnchoredAt FoundAmong Anchored Covers LeastOf
  ran_result-first byte overscan start size ranges p bounded anchored covered l u =
      LeastOf-respects (λ a. ⊥ ⊎ FoundAmong memory w byte ranges p a) (AnchoredAt start size p)
        p.offset _
        (λ a found. elim found [
          | inl none_at ↦ absurd none_at
          | inr (there, at, q) ↦
              let (lo, hi) = AllWithin-InSome start (start + size) _ ranges covered.0 there in
              (lo, hi, q)
        ])
        (λ a here.
          inr (anchor-FoundAmong byte overscan start size ranges p a bounded anchored covered here))
        (ran_result-LeastOf memory w (λ a. ⊥) byte start (start + size) ranges p 0
          (omega (arith, anchored.0)) u covered.0 (inl (refl, λ a none_at. none_at)))

  ran-AllFirst :
      (byte overscan start size : ℕ) (ranges : List (ℕ × ℕ)) (ps qs : List MultiPattern)
      → ((m : ℕ) → memory m < 256)
      → Covers start size 0 ranges
      → AllAnchored byte overscan ps qs
      → AllFresh w start size ps
      → AllFirst start size qs (map (ran memory w byte ranges) qs)
  unfolding AllFirst AllAnchored AllFresh
  ran-AllFirst byte overscan start size ranges [] [] bounded covered anchored fresh = tt
  ran-AllFirst byte overscan start size ranges [] (q ∷ qs) bounded covered anchored fresh =
      absurd anchored
  ran-AllFirst byte overscan start size ranges (p ∷ ps) [] bounded covered anchored fresh =
      absurd anchored
  ran-AllFirst byte overscan start size ranges (p ∷ ps) (q ∷ qs) bounded covered
        (same, here, anchored) (zero_result, l, u, fresh) =
      (
        refl,
        subst
            (λ r. LeastOf (AnchoredAt start size q) q.offset (ran_result memory w byte ranges q r))
            (sym (ap (λ x. x.result) same ∙ zero_result))
            (ran_result-first byte overscan start size ranges q bounded here covered
              (subst (λ n. n ≤ start) (sym (ap (λ x. x.pattern_size) same)) l)
              (subst (λ n. start + size + n ≤ 2 ^ w) (sym (ap (λ x. x.offset) same)) u)),
        ran-AllFirst byte overscan start size ranges ps qs bounded covered anchored fresh,
      )

  multi_sigscan_runs :
      (hardware_concurrency : ℕ) (schedule : List (ℕ × ℕ) → List (ℕ × ℕ)) (start size : ℕ)
      (ps qs : List MultiPattern) (byte overscan per_thread : ℕ) (ranges : List (ℕ × ℕ))
      → multi_sigscan_preprocess ps ≡ some (byte, overscan, qs)
      → size_per_thread hardware_concurrency size ≡ some per_thread
      → thread_ranges (suc size) start size per_thread overscan 0 ≡ some ranges
      → multi_sigscan memory w hardware_concurrency schedule start size ps
        ≡ run_threads memory w byte (schedule ranges) qs
  unfolding multi_sigscan
  multi_sigscan_runs hardware_concurrency schedule start size ps qs byte overscan per_thread ranges
        e each started =
      ground (arith, e, each, started)

  -- On any number of cores but one, a search for patterns that can be preprocessed ends, whatever the
  -- order of its threads, and leaves in each pattern its offset added to the first address at which the
  -- pattern is with its anchor in the memory, or 0 when there is none. The addresses must not wrap
  -- around.
  pub multi_sigscan-AllFirst :
      (hardware_concurrency : ℕ) (schedule : List (ℕ × ℕ) → List (ℕ × ℕ)) (start size : ℕ)
      (ps qs : List MultiPattern) (byte overscan : ℕ)
      → ((m : ℕ) → memory m < 256)
      → hardware_concurrency ≢ 1
      → ((ranges : List (ℕ × ℕ)) → Permᴰ ranges (schedule ranges))
      → 0 < length ps
      → AllFresh w start size ps
      → multi_sigscan_preprocess ps ≡ some (byte, overscan, qs)
      → (rs : List MultiPattern) × (multi_sigscan memory w hardware_concurrency schedule start size
            ps
          ≡ some rs)
        × AllFirst start size qs rs
  unfolding multi_sigscan
  multi_sigscan-AllFirst hardware_concurrency schedule start size ps qs byte overscan bounded
        several perm full fresh e =
      let (per_thread, each, large) = size_per_thread_lem hardware_concurrency size several in
      let (ranges, started, covered) =
        scheduled-Covers start size per_thread overscan schedule (omega arith) perm in
      let (small, other, anchored) =
        multi_sigscan_preprocess-AllAnchored ps qs byte overscan full e in
      (
        map (ran memory w byte (schedule ranges)) qs,
        multi_sigscan_runs hardware_concurrency schedule start size ps qs byte overscan per_thread
              ranges e each started
            ∙ run_threads-ran memory w byte (schedule ranges) qs,
        ran-AllFirst byte overscan start size (schedule ranges) ps qs bounded covered anchored
            fresh,
      )
