-- ===== src/Logging/Chunks.antt =====
-- src/unrealsdk/logging.cpp, `truncate_leading_chunks`: where the next chunk of a text begins.
use unrealsdk.Base.{
  ℕ, zero, suc, ◌+◌, ◌<◌, ◌≤◌, ◌≡◌, refl, sym, ◌∙◌, ap, subst, Bool, true, false, not, some, [],
  ◌∷◌, Wide, length, drop, Option-cases, Bool-cases, inl, inr, arith, length-drop,
}
use unrealsdk.Logging.Truncate.{
  is_separator, find_first, find_first_of, find_first_not_of, next_chunk,
}

-- A position that is found lies in the text, and the test accepts what stands there.
find_first-found :
    (test : ℕ → Bool) (str : Wide) (pos found : ℕ)
    → find_first test str pos ≡ some found
    → (pos ≤ found) × (found < pos + length str)
unfolding find_first
find_first-found test [] pos found e = absurd (ground arith)
find_first-found test (c ∷ str) pos found e = elim (Bool-cases (test c)) [
  | inl t ↦ ground arith
  | inr t ↦ ground (arith, find_first-found test str (suc pos) found (ground arith))
]

-- What stands at the position found.
find_first-stands :
    (test : ℕ → Bool) (str : Wide) (pos found : ℕ)
    → find_first test str pos ≡ some found
    → (k : ℕ) × (c : ℕ) × (rest : Wide) × (found ≡ pos + k)
      × (drop k str ≡ c ∷ rest)
      × (test c ≡ true)
unfolding find_first
find_first-stands test [] pos found e = absurd (ground arith)
find_first-stands test (c ∷ str) pos found e = elim (Bool-cases (test c)) [
  | inl t ↦ (0, c, str, ground arith, refl, t)
  | inr t ↦
      let (k, b, rest, at, stands, passes) =
        find_first-stands test str (suc pos) found (ground arith) in
      (suc k, b, rest, omega arith, stands, passes)
]

drop-nil : (n : ℕ) → drop {A = ℕ} n [] ≡ []
drop-nil zero = refl
drop-nil (suc n) = refl

suc-plus : (n m : ℕ) → suc (n + m) ≡ suc n + m
suc-plus n m = omega arith

drop-drop : (m n : ℕ) (str : Wide) → drop m (drop n str) ≡ drop (n + m) str
drop-drop m zero str = ap (λ k. drop k str) (omega arith)
drop-drop m (suc n) [] = drop-nil m ∙ sym (drop-nil (suc n + m))
drop-drop m (suc n) (c ∷ str) = drop-drop m n str ∙ ap (λ k. drop k (c ∷ str)) (suc-plus n m)

-- A position that is found from one that the test does not accept is further on.
find_first_later :
    (test : ℕ → Bool) (c : ℕ) (rest : Wide) (pos found : ℕ)
    → test c ≡ false
    → find_first test (c ∷ rest) pos ≡ some found
    → (pos < found) × (found < pos + length (c ∷ rest))
unfolding find_first
find_first_later test c rest pos found t f =
    ground (arith, find_first-found test rest (suc pos) found (ground arith))

-- The next chunk begins further on, within the text.
pub next_chunk-bounds :
    (separators str : Wide) (start next : ℕ)
    → next_chunk separators str start ≡ some next
    → (start < next) × (next < length str)
unfolding next_chunk find_first_of find_first_not_of
next_chunk-bounds separators str start next e =
    elim (Option-cases (find_first (is_separator separators) (drop start str) start)) [
      | inl p ↦ absurd (ground arith)
      | inr (at, p) ↦
          let plain : ℕ → Bool = λ c. not (is_separator separators c) in
          let (k, c, rest, at_k, stands, is_sep) =
            find_first-stands (is_separator separators) (drop start str) start at p in
          let here = ap (λ n. drop n str) at_k ∙ sym (drop-drop k start str) ∙ stands in
          let found = subst (λ s. find_first plain s at ≡ some next) here (ground arith) in
          let later = find_first_later plain c rest at next (ap not is_sep) found in
          let room = length-drop at str in ground (arith, later, at_k, ap length here, room)
    ]
