-- ===== src/Memory/MultiScan/Runs.antt =====
-- src/unrealsdk/multi_sigscan.h, `multi_sigscan`: what the threads leave in the patterns, in turn.
use unrealsdk.Base.{
  ℕ, suc, ◌+◌, ◌^◌, ◌<◌, ◌≤◌, ◌≡◌, refl, sym, ap, ◌∙◌, subst, inl, inr, ◌⊎◌, none, some, List, [],
  ◌∷◌, map, arith,
}
use unrealsdk.Memory.{Bytes}
use unrealsdk.Memory.Scan.{Matches}
use unrealsdk.Memory.MultiScan.{MultiPattern, run_threads}
use unrealsdk.Memory.MultiScan.Threads.{
  each_result, scanned, multi_sigscan_thread-scanned, each_result_kept, map-map_eq, map_same,
}
use unrealsdk.Memory.MultiScan.Ranges.{InSome, AllWithin}
use unrealsdk.Memory.MultiScan.Results.{LeastOf, LeastOf-respects, FoundIn, each_result-LeastOf}

module _ (memory : Bytes) (w : ℕ) where
  -- What the threads leave in a result, in turn.
  unfoldable pub ran_result : ℕ → List (ℕ × ℕ) → MultiPattern → ℕ → ℕ
  ran_result byte [] p r = r
  ran_result byte ((pos, n) ∷ ranges) p r =
      ran_result byte ranges p (each_result memory w byte pos n p r)

  ran_result_kept :
      (byte : ℕ) (ranges : List (ℕ × ℕ)) (p : MultiPattern) (s r : ℕ)
      → ran_result byte ranges (record p { result = s }) r ≡ ran_result byte ranges p r
  unfolding ran_result
  ran_result_kept byte [] p s r = refl
  ran_result_kept byte ((pos, n) ∷ ranges) p s r =
      ran_result_kept byte ranges p s _
      ∙ ap (ran_result byte ranges p) (each_result_kept memory w byte pos n p s r)

  abbrev pub ran : ℕ → List (ℕ × ℕ) → MultiPattern → MultiPattern
  ran byte ranges p = record p { result = ran_result byte ranges p p.result }

  pub run_threads-ran :
      (byte : ℕ) (ranges : List (ℕ × ℕ)) (ps : List MultiPattern)
      → run_threads memory w byte ranges ps ≡ some (map (ran byte ranges) ps)
  unfolding run_threads ran_result scanned
  run_threads-ran byte [] ps = ap some (map_same (λ p. p) ps (λ p. refl))
  run_threads-ran byte ((pos, n) ∷ ranges) ps =
      subst
        (λ o.
          (elim o [ none ↦ none | some qs ↦ run_threads memory w byte ranges qs ])
          ≡ some (map (ran byte ((pos, n) ∷ ranges)) ps))
        (sym (multi_sigscan_thread-scanned memory w (suc n) byte pos n ps (omega arith)))
        (run_threads-ran byte ranges (map (scanned memory w byte pos n) ps)
          ∙ ap some (
              map-map_eq (ran byte ranges) (scanned memory w byte pos n)
                (ran byte ((pos, n) ∷ ranges)) ps
                (λ p. ap (λ r. record p { result = r }) (ran_result_kept byte ranges p _ _))))

  -- The pattern is at `a`, and its anchor is in one of the ranges.
  unfoldable pub FoundAmong : ℕ → List (ℕ × ℕ) → MultiPattern → ℕ → Type 0
  FoundAmong byte ranges p a =
      InSome ranges (a + p.start_offset)
      × (memory (a + p.start_offset) ≡ byte)
      × Matches memory p.bytes p.mask p.pattern_size a

  pub ran_result-LeastOf :
      (P : ℕ → Type 0) (byte lo hi : ℕ) (ranges : List (ℕ × ℕ)) (p : MultiPattern) (r : ℕ)
      → p.start_offset < lo
      → hi + p.offset ≤ 2 ^ w
      → AllWithin lo hi ranges
      → LeastOf P p.offset r
      → LeastOf (λ a. P a ⊎ FoundAmong byte ranges p a) p.offset (ran_result byte ranges p r)
  unfolding ran_result FoundAmong AllWithin InSome FoundIn
  ran_result-LeastOf P byte lo hi [] p r l u within least =
      LeastOf-respects P (λ a. P a ⊎ FoundAmong byte [] p a) p.offset r (λ a q. inl q)
        (λ a found. elim found [ inl q ↦ q | inr (none_at, at, q) ↦ absurd none_at ]) least
  ran_result-LeastOf P byte lo hi ((pos, n) ∷ ranges) p r l u ((at_least, at_most), within) least =
      LeastOf-respects (λ a. (P a ⊎ FoundIn memory w byte pos n p a) ⊎ FoundAmong byte ranges p a)
        (λ a. P a ⊎ FoundAmong byte ((pos, n) ∷ ranges) p a) p.offset _
        (λ a found. elim found [
          | inl (inl q) ↦ inl q
          | inl (inr (from, to, at, q)) ↦ inr (inl (from, to), at, q)
          | inr (there, at, q) ↦ inr (inr there, at, q)
        ])
        (λ a found. elim found [
          | inl q ↦ inl (inl q)
          | inr (inl (from, to), at, q) ↦ inl (inr (from, to, at, q))
          | inr (inr there, at, q) ↦ inr (there, at, q)
        ])
        (ran_result-LeastOf (λ a. P a ⊎ FoundIn memory w byte pos n p a) byte lo hi ranges p _ l u
          within (each_result-LeastOf memory w P byte pos n p r (omega arith) (omega arith) least))
