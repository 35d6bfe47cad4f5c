-- ===== src/Logging/ChunkStarts.antt =====
-- src/unrealsdk/logging.cpp, `truncate_leading_chunks`: the chunks of a text, and the search for the next.
use mathlib.Core.Option.{some-injective}
use unrealsdk.Base.{
  ℕ, zero, suc, ◌+◌, ◌-◌, ◌<◌, ◌≤◌, ◌≡◌, refl, sym, ◌∙◌, ap, Bool, true, false, not, none, some, [],
  ◌∷◌, Wide, drop, get_elem?, ltb, Option-cases, Bool-cases, inl, inr, arith,
}
use unrealsdk.Logging.Truncate.{
  is_separator, find_first, find_first_of, find_first_not_of, next_chunk,
}

-- A character that is no separator stands at the position, and a separator before it.
unfoldable pub BeginsChunk : Wide → Wide → ℕ → Type 0
BeginsChunk separators str i =
    (j : ℕ) × (s : ℕ) × (c : ℕ) × (i ≡ suc j)
    × (get_elem? str j ≡ some s)
    × (is_separator separators s ≡ true)
    × (get_elem? str i ≡ some c)
    × (is_separator separators c ≡ false)

unfoldable pub NoChunkBetween : Wide → Wide → ℕ → ℕ → Type 0
NoChunkBetween separators str from to = (i : ℕ) → from < i → i < to → ¬ BeginsChunk separators str i

unfoldable pub NoChunkAfter : Wide → Wide → ℕ → Type 0
NoChunkAfter separators str from = (i : ℕ) → from < i → ¬ BeginsChunk separators str i

get_elem?-drop : (n k : ℕ) (str : Wide) → get_elem? (drop n str) k ≡ get_elem? str (n + k)
get_elem?-drop zero k str = ap (get_elem? str) (omega arith)
get_elem?-drop (suc n) k [] = refl
get_elem?-drop (suc n) k (c ∷ str) =
    let step : suc (n + k) ≡ suc n + k = omega arith in
    get_elem?-drop n k str ∙ ap (get_elem? (c ∷ str)) step

elem_before :
    (str : Wide) (i j c : ℕ)
    → j ≤ i
    → get_elem? str i ≡ some c
    → (d : ℕ) × (get_elem? str j ≡ some d)
elem_before [] i j c l e = absurd (ground arith)
elem_before (d ∷ str) i zero c l e = (d, refl)
elem_before (d ∷ str) zero (suc j) c l e = absurd (omega arith)
elem_before (d ∷ str) (suc i) (suc j) c l e = elem_before str i j c (omega arith) e

-- What the search finds, and that nothing before it passes the test.
find_first-first :
    (test : ℕ → Bool) (str : Wide) (pos found : ℕ)
    → find_first test str pos ≡ some found
    → (k : ℕ) × (c : ℕ) × (found ≡ pos + k)
      × (get_elem? str k ≡ some c)
      × (test c ≡ true)
      × ((i d : ℕ) → i < k → get_elem? str i ≡ some d → test d ≡ false)
unfolding find_first
find_first-first test [] pos found e = absurd (ground arith)
find_first-first test (c ∷ str) pos found e = elim (Bool-cases (test c)) [
  | inl t ↦ (0, c, ground arith, refl, t, λ i d l e. absurd (omega arith))
  | inr t ↦
      let (k, b, at, stands, passes, earlier) =
        find_first-first test str (suc pos) found (ground arith) in
      (suc k, b, omega arith, stands, passes, before k earlier t)
]
  where
    before :
        (k : ℕ)
        → ((i d : ℕ) → i < k → get_elem? str i ≡ some d → test d ≡ false)
        → test c ≡ false
        → (i d : ℕ) → i < suc k
        → get_elem? (c ∷ str) i ≡ some d
        → test d ≡ false
    before k earlier t zero d l e = ground (arith, t)
    before k earlier t (suc i) d l e = earlier i d (omega arith) e

find_first-never :
    (test : ℕ → Bool) (str : Wide) (pos : ℕ)
    → find_first test str pos ≡ none
    → (i d : ℕ) → get_elem? str i ≡ some d
    → test d ≡ false
unfolding find_first
find_first-never test [] pos e i d at = absurd (ground arith)
find_first-never test (c ∷ str) pos e zero d at = elim (Bool-cases (test c)) [
  | inl t ↦ absurd (ground arith)
  | inr t ↦ ground (arith, t)
]
find_first-never test (c ∷ str) pos e (suc i) d at = elim (Bool-cases (test c)) [
  | inl t ↦ absurd (ground arith)
  | inr t ↦ find_first-never test str (suc pos) (ground arith) i d at
]

-- The same in the positions of the whole text.
found_from :
    (test : ℕ → Bool) (str : Wide) (start found : ℕ)
    → find_first test (drop start str) start ≡ some found
    → (c : ℕ) × (start ≤ found)
      × (get_elem? str found ≡ some c)
      × (test c ≡ true)
      × ((i d : ℕ) → start ≤ i → i < found → get_elem? str i ≡ some d → test d ≡ false)
found_from test str start found e =
    let (k, c, at, stands, passes, earlier) =
      find_first-first test (drop start str) start found e in
    (
      c,
      omega arith,
      ap (get_elem? str) at ∙ sym (get_elem?-drop start k str) ∙ stands,
      passes,
      λ i d l u at_i.
          let shifted : start + (i - start) ≡ i = omega arith in
          earlier (i - start) d (omega arith)
            (get_elem?-drop start (i - start) str ∙ ap (get_elem? str) shifted ∙ at_i),
    )

never_from :
    (test : ℕ → Bool) (str : Wide) (start : ℕ)
    → find_first test (drop start str) start ≡ none
    → (i d : ℕ) → start ≤ i
    → get_elem? str i ≡ some d
    → test d ≡ false
never_from test str start e i d l at_i =
    let shifted : start + (i - start) ≡ i = omega arith in
    find_first-never test (drop start str) start e (i - start) d
      (get_elem?-drop start (i - start) str ∙ ap (get_elem? str) shifted ∙ at_i)

module _ (separators str : Wide) where
  sep : ℕ → Bool
  sep c = is_separator separators c

  plain : ℕ → Bool
  plain c = not (is_separator separators c)

  -- Within a run of plain characters no chunk begins behind its first character, nor at its end.
  no_chunk_in_plain :
      (start at i : ℕ)
      → ((j d : ℕ) → start ≤ j → j < at → get_elem? str j ≡ some d → sep d ≡ false)
      → start < i
      → i ≤ at
      → ¬ BeginsChunk separators str i
  unfolding BeginsChunk sep
  no_chunk_in_plain start at i run l u (j, s, c, next, here, is_sep, there, other) =
      let not_sep = run j s (omega arith) (omega arith) here in
      absurd (ground (arith, is_sep, not_sep))

  -- No chunk begins at a separator.
  no_chunk_in_separators :
      (at i : ℕ)
      → ((d : ℕ) → get_elem? str i ≡ some d → plain d ≡ false)
      → ¬ BeginsChunk separators str i
  unfolding BeginsChunk plain
  no_chunk_in_separators at i run (j, s, c, next, here, is_sep, there, other) =
      let not_plain = run c there in absurd (ground (arith, other, not_plain))

  apart :
      (at next s c : ℕ)
      → at ≤ next
      → get_elem? str at ≡ some s
      → get_elem? str next ≡ some c
      → sep s ≡ true
      → plain c ≡ true
      → at < next
  unfolding sep plain
  apart at next s c later at_s at_c is_sep is_plain = elim (Bool-cases (ltb at next)) [
    | inl l ↦ ground arith
    | inr l ↦
        let same : at ≡ next = ground arith in
        let one : s ≡ c = some-injective _ _ (sym at_s ∙ ap (get_elem? str) same ∙ at_c) in
        let both = ap (is_separator separators) one in
        absurd (ground (arith, both, is_sep, is_plain))
  ]

  -- The next chunk begins where one begins, and none does before it.
  pub next_chunk-BeginsChunk :
      (start next : ℕ)
      → next_chunk separators str start ≡ some next
      → BeginsChunk separators str next × NoChunkBetween separators str start next
  unfolding next_chunk find_first_of find_first_not_of BeginsChunk NoChunkBetween sep plain
  next_chunk-BeginsChunk start next e =
      elim (Option-cases (find_first sep (drop start str) start)) [
        | inl p ↦ absurd (ground (arith, p))
        | inr (at, p) ↦
            let (s, from, at_s, is_sep, before) = found_from sep str start at p in
            let found : find_first plain (drop at str) at ≡ some next = ground (arith, p) in
            let (c, later, at_c, is_plain, between) = found_from plain str at next found in
            let far = apart at next s c later at_s at_c is_sep is_plain in
            let (d, at_d) = elem_before str next (next - 1) c (omega arith) at_c in
            let sep_before = between (next - 1) d (omega arith) (omega arith) at_d in
            (
              (
                next - 1,
                d,
                c,
                omega arith,
                at_d,
                ground (arith, sep_before),
                at_c,
                ground (arith, is_plain),
              ),
              λ i l u. elim (Bool-cases (ltb at i)) [
                | inl inner ↦ no_chunk_in_separators at i (λ d h. between i d (ground arith) u h)
                | inr near ↦ no_chunk_in_plain start at i before l (ground arith)
              ],
            )
      ]

  pub next_chunk-NoChunkAfter :
      (start : ℕ) → next_chunk separators str start ≡ none → NoChunkAfter separators str start
  unfolding next_chunk find_first_of find_first_not_of NoChunkAfter sep plain
  next_chunk-NoChunkAfter start e i l =
      elim (Option-cases (find_first sep (drop start str) start)) [
        | inl p ↦
            no_chunk_in_plain start i i (λ j d a b h. never_from sep str start p j d a h) l
              (omega arith)
        | inr (at, p) ↦
            let (s, from, at_s, is_sep, before) = found_from sep str start at p in
            let none_left : find_first plain (drop at str) at ≡ none = ground (arith, p) in
            elim (Bool-cases (ltb at i)) [
              | inl far ↦
                  no_chunk_in_separators at i
                    (λ d h. never_from plain str at none_left i d (ground arith) h)
              | inr near ↦ no_chunk_in_plain start at i before l (ground arith)
            ]
      ]
