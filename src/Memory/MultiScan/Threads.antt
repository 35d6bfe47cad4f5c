-- ===== src/Memory/MultiScan/Threads.antt =====
-- src/unrealsdk/multi_sigscan.h, `multi_sigscan_thread`: what the threads write to the patterns, in
-- whatever order they run.
use unrealsdk.Base.{
  ℕ, zero, suc, ◌+◌, ◌-◌, ◌%◌, ◌^◌, ◌<◌, ◌≡◌, refl, sym, ap, ◌∙◌, subst, Bool, true, false, ◌==◌,
  if◌then◌else◌, inl, inr, none, some, Option, List, [], ◌∷◌, map, arith, Bool-cases, Option-cases,
}
use unrealsdk.Memory.{Bytes, is_found}
use unrealsdk.Memory.MultiScan.{MultiPattern, find, new_result, try_pattern, multi_sigscan_thread}

pub map-map_eq :
    {A : Type 0} (f g h : A → A) (xs : List A)
    → ((x : A) → f (g x) ≡ h x)
    → map f (map g xs) ≡ map h xs
map-map_eq f g h [] e = refl
map-map_eq f g h (x ∷ xs) e = cc (e x, map-map_eq f g h xs e)

pub map_same : {A : Type 0} (f : A → A) (xs : List A) → ((x : A) → f x ≡ x) → xs ≡ map f xs
map_same f [] e = refl
map_same f (x ∷ xs) e = cc (e x, map_same f xs e)

set_or_kept :
    (c : Bool) (p : MultiPattern) (r : ℕ)
    → (if c then (record p { result = r }) else p)
      ≡ (record p { result = if c then r else p.result })
set_or_kept true p r = refl
set_or_kept false p r = refl

module _ (memory : Bytes) (w : ℕ) where
  -- What `try_pattern` does to the result `r`.
  unfoldable pub try_result : ℕ → MultiPattern → ℕ → ℕ
  try_result m p r =
      let sig_start = (m + 2 ^ w - p.start_offset) % 2 ^ w in
      if is_found memory p.bytes p.mask sig_start 0 p.pattern_size
      then new_result r ((sig_start + p.offset) % 2 ^ w)
      else r

  try_pattern-try_result :
      (m : ℕ) (p : MultiPattern)
      → try_pattern memory w m p ≡ (record p { result = try_result m p p.result })
  unfolding try_pattern try_result
  try_pattern-try_result m p = set_or_kept _ p _

  -- The reference: each position in turn.
  unfoldable pub each_result : ℕ → ℕ → ℕ → MultiPattern → ℕ → ℕ
  each_result byte pos zero p r = r
  each_result byte pos (suc n) p r =
      each_result byte (suc pos) n p (if memory pos == byte then try_result pos p r else r)

  pub each_result_kept :
      (byte pos n : ℕ) (p : MultiPattern) (s r : ℕ)
      → each_result byte pos n (record p { result = s }) r ≡ each_result byte pos n p r
  unfolding each_result try_result
  each_result_kept byte pos zero p s r = refl
  each_result_kept byte pos (suc n) p s r = each_result_kept byte (suc pos) n p s _

  unfoldable pub scanned : ℕ → ℕ → ℕ → MultiPattern → MultiPattern
  scanned byte pos n p = record p { result = each_result byte pos n p p.result }

  find_missing :
      (byte pos n : ℕ) (p : MultiPattern) (r : ℕ)
      → find memory byte pos n ≡ none
      → each_result byte pos n p r ≡ r
  unfolding find each_result
  find_missing byte pos zero p r e = refl
  find_missing byte pos (suc n) p r e = elim (Bool-cases (memory pos == byte)) [
    | inl s ↦ absurd (ground arith)
    | inr s ↦
        subst (λ c. each_result byte (suc pos) n p (if c then try_result pos p r else r) ≡ r)
          (sym s) (find_missing byte (suc pos) n p r (ground arith))
  ]

  find_match :
      (byte pos n m left : ℕ)
      → find memory byte pos n ≡ some (m, left)
      → (left < n)
        × ((p : MultiPattern) (r : ℕ)
            → each_result byte pos n p r ≡ each_result byte (suc m) left p (try_result m p r))
  unfolding find each_result
  find_match byte pos zero m left e = absurd (ground arith)
  find_match byte pos (suc n) m left e = elim (Bool-cases (memory pos == byte)) [
    | inl s ↦
        let at : pos ≡ m = ground arith in
        let rest : n ≡ left = ground arith in
        (
          omega arith,
          λ p r.
              subst
                (λ c.
                  each_result byte (suc pos) n p (if c then try_result pos p r else r)
                  ≡ each_result byte (suc m) left p (try_result m p r))
                (sym s) (cc (at, rest)),
        )
    | inr s ↦
        let (l, h) = find_match byte (suc pos) n m left (ground arith) in
        (
          omega arith,
          λ p r.
              subst
                (λ c.
                  each_result byte (suc pos) n p (if c then try_result pos p r else r)
                  ≡ each_result byte (suc m) left p (try_result m p r))
                (sym s) (h p r),
        )
  ]

  abbrev thread_round : ℕ → ℕ → List MultiPattern → Option (ℕ × ℕ) → Option (List MultiPattern)
  thread_round fuel byte ps none = some ps
  thread_round fuel byte ps (some (m, left)) =
      multi_sigscan_thread memory w fuel byte (suc m) left (map (try_pattern memory w m) ps)

  -- A thread ends, and does to each pattern what the positions do in turn.
  pub multi_sigscan_thread-scanned :
      (fuel byte pos n : ℕ) (ps : List MultiPattern)
      → n < fuel
      → multi_sigscan_thread memory w fuel byte pos n ps ≡ some (map (scanned byte pos n) ps)
  unfolding multi_sigscan_thread scanned try_result
  multi_sigscan_thread-scanned zero byte pos n ps l = absurd (omega arith)
  multi_sigscan_thread-scanned (suc fuel) byte pos n ps l =
      elim (Option-cases (find memory byte pos n)) [
        | inl e ↦
            subst (λ found. thread_round fuel byte ps found ≡ some (map (scanned byte pos n) ps))
              (sym e)
              (ap some (
                map_same (scanned byte pos n) ps
                  (λ p. ap (λ r. record p { result = r }) (find_missing byte pos n p p.result e))))
        | inr ((m, left), e) ↦
            let (less, same) = find_match byte pos n m left e in
            subst (λ found. thread_round fuel byte ps found ≡ some (map (scanned byte pos n) ps))
              (sym e)
              (multi_sigscan_thread-scanned fuel byte (suc m) left (map (try_pattern memory w m) ps)
                  (omega arith)
                ∙ ap some (
                    map-map_eq (scanned byte (suc m) left) (try_pattern memory w m)
                      (scanned byte pos n) ps
                      (λ p.
                        ap (scanned byte (suc m) left) (try_pattern-try_result m p)
                        ∙ ap (λ r. record p { result = r })
                            (each_result_kept byte (suc m) left p _ _ ∙ sym (same p p.result)))))
      ]
