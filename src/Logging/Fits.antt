-- ===== src/Logging/Fits.antt =====
-- src/unrealsdk/logging.cpp, `truncate_leading_chunks`: where the loop stops, and what it keeps.
use unrealsdk.Logging.Chunks.{next_chunk-bounds}
use unrealsdk.Logging.ChunkStarts.{
  BeginsChunk, NoChunkBetween, NoChunkAfter, next_chunk-BeginsChunk, next_chunk-NoChunkAfter,
}
use unrealsdk.Base.{
  ℕ, zero, suc, ◌+◌, ◌-◌, ◌<◌, ◌≤◌, ◌≡◌, refl, sym, ◌∙◌, ap, subst, true, false, if◌then◌else◌,
  ◌==◌, leb, none, some, ◌++◌, Wide, length, drop, Option-cases, Bool-cases, inl, inr, ◌⊎◌, arith,
  length-drop, length-append,
}
use unrealsdk.Logging.Truncate.{truncation_prefix, next_chunk, start_from, truncate_leading_chunks}

-- One round of the loop.
module _ (fuel : ℕ) (separators str : Wide) (max_width width start : ℕ) where
  start_from-fits :
      leb width max_width ≡ true
      → start_from (suc fuel) separators str max_width width start ≡ start
  unfolding start_from
  start_from-fits fits = ground arith

  start_from-last :
      next_chunk separators str start ≡ none
      → start_from (suc fuel) separators str max_width width start ≡ start
  unfolding start_from
  start_from-last last = ground arith

  start_from-next :
      (next : ℕ)
      → leb width max_width ≡ false
      → next_chunk separators str start ≡ some next
      → start_from (suc fuel) separators str max_width width start
        ≡ start_from fuel separators str
            (if start == 0 then max_width - length truncation_prefix else max_width)
            (width - (next - start))
            next
  unfolding start_from
  start_from-next next wide more = ground arith

-- Whatever chunk is the first one kept, from one position to another, the text is too long.
unfoldable pub TooLongBetween : Wide → Wide → ℕ → ℕ → ℕ → Type 0
TooLongBetween separators str max_width start stop =
    (i : ℕ) → start ≤ i → i < stop → BeginsChunk separators str i → max_width < length str - i

-- Where the loop stops: at the first chunk from which the text fits, or else at the last chunk.
unfoldable pub Stops : Wide → Wide → ℕ → ℕ → ℕ → Type 0
Stops separators str max_width start stop =
    (start ≤ stop)
    × (stop ≤ length str)
    × BeginsChunk separators str stop
    × (NoChunkAfter separators str stop ⊎ (length str - stop ≤ max_width))
    × TooLongBetween separators str max_width start stop

later_Stops :
    (separators str : Wide) (max_width start next stop : ℕ)
    → start < next
    → max_width < length str - start
    → NoChunkBetween separators str start next
    → Stops separators str max_width next stop
    → Stops separators str max_width start stop
unfolding Stops TooLongBetween NoChunkBetween
later_Stops separators str max_width start next stop l wide gap (a, b, begins, why, long) = (
  omega arith,
  b,
  begins,
  why,
  λ i from to chunk. elim (Bool-cases (leb next i)) [
    | inl far ↦ long i (ground arith) to chunk
    | inr near ↦ elim (Bool-cases (leb i start)) [
      | inl here ↦ ground (arith, wide, here, from)
      | inr inner ↦ absurd (gap i (ground arith) (ground arith) chunk)
    ]
  ],
)

settled :
    (separators str : Wide) (max_width start : ℕ)
    → start ≤ length str
    → BeginsChunk separators str start
    → NoChunkAfter separators str start ⊎ (length str - start ≤ max_width)
    → Stops separators str max_width start start
unfolding Stops TooLongBetween
settled separators str max_width start l begins why =
    (omega arith, l, begins, why, λ i from to chunk. absurd (omega arith))

same_width :
    (max_width start : ℕ)
    → 0 < start
    → max_width ≡ (if start == 0 then max_width - length truncation_prefix else max_width)
same_width max_width start p = ground arith

start_from-zero :
    (separators str : Wide) (max_width width start : ℕ)
    → start_from zero separators str max_width width start ≡ start
unfolding start_from
start_from-zero separators str max_width width start = refl

start_from-Stops :
    (fuel : ℕ) (separators str : Wide) (max_width width start : ℕ)
    → 0 < start
    → start ≤ length str
    → BeginsChunk separators str start
    → width + start ≡ length str
    → width ≤ fuel
    → Stops separators str max_width start (start_from fuel separators str max_width width start)
start_from-Stops zero separators str max_width width start p l begins w f =
    subst (Stops separators str max_width start)
      (sym (start_from-zero separators str max_width width start))
      (settled separators str max_width start l begins (inr (omega arith)))
start_from-Stops (suc fuel) separators str max_width width start p l begins w f =
    let stops = Stops separators str max_width start in
    let here = settled separators str max_width start l begins in
    elim (Bool-cases (leb width max_width)) [
      | inl fits ↦
          subst stops (sym (start_from-fits fuel separators str max_width width start fits))
            (here (inr (ground arith)))
      | inr wide ↦ elim (Option-cases (next_chunk separators str start)) [
        | inl last ↦
            subst stops (sym (start_from-last fuel separators str max_width width start last))
              (here (inl (next_chunk-NoChunkAfter separators str start last)))
        | inr (next, more) ↦
            let bounds = next_chunk-bounds separators str start next more in
            let (chunk, gap) = next_chunk-BeginsChunk separators str start next more in
            let rest =
              start_from-Stops fuel separators str max_width (width - (next - start)) next
                (omega arith) (omega arith) chunk (omega arith) (omega arith) in
            subst stops
              (ap (λ m. start_from fuel separators str m (width - (next - start)) next)
                  (same_width max_width start p)
                ∙ sym (start_from-next fuel separators str max_width width start next wide more))
              (later_Stops separators str max_width start next
                (start_from fuel separators str max_width (width - (next - start)) next) bounds.0
                (ground (arith, wide)) gap rest)
      ]
    ]

if_later :
    (str : Wide) (k : ℕ)
    → 0 < k
    → (if k == 0 then str else truncation_prefix ++ drop k str) ≡ truncation_prefix ++ drop k str
if_later str k l = ground arith

truncated-from :
    (str separators : Wide) (max_width k : ℕ)
    → start_from (length str) separators str max_width (length str) 0 ≡ k
    → truncate_leading_chunks str separators max_width
      ≡ (if k == 0 then str else truncation_prefix ++ drop k str)
unfolding truncate_leading_chunks
truncated-from str separators max_width k e =
    ap (λ n. if n == 0 then str else truncation_prefix ++ drop n str) e

-- The text is kept, or cut where it should be.
unfoldable pub IsTruncated : Wide → Wide → ℕ → Wide → Type 0
IsTruncated separators str max_width result =
    ((result ≡ str) × ((length str ≤ max_width) ⊎ NoChunkAfter separators str 0))
    ⊎ ((k : ℕ) × (max_width < length str)
        × BeginsChunk separators str k
        × (result ≡ truncation_prefix ++ drop k str)
        × (NoChunkAfter separators str k ⊎ (length result ≤ max_width))
        × ((i : ℕ)
            → i < k
            → BeginsChunk separators str i
            → max_width < length (truncation_prefix ++ drop i str)))

-- What the loop decides: to keep the text, or to cut it at a chunk.
unfoldable pub Decides : Wide → Wide → ℕ → ℕ → Type 0
Decides separators str max_width k =
    ((k ≡ 0) × ((length str ≤ max_width) ⊎ NoChunkAfter separators str 0))
    ⊎ ((max_width < length str)
        × (0 < k)
        × (k ≤ length str)
        × BeginsChunk separators str k
        × (NoChunkAfter separators str k ⊎ (length str - k ≤ max_width - 2))
        × TooLongBetween separators str (max_width - 2) 0 k)

cut_later :
    (separators str : Wide) (max_width next stop : ℕ)
    → max_width < length str
    → 0 < next
    → NoChunkBetween separators str 0 next
    → Stops separators str (max_width - 2) next stop
    → (max_width < length str)
      × (0 < stop)
      × (stop ≤ length str)
      × BeginsChunk separators str stop
      × (NoChunkAfter separators str stop ⊎ (length str - stop ≤ max_width - 2))
      × TooLongBetween separators str (max_width - 2) 0 stop
unfolding Stops TooLongBetween NoChunkBetween
cut_later separators str max_width next stop wide l gap (a, b, begins, why, long) = (
  wide,
  omega arith,
  b,
  begins,
  why,
  λ i from to chunk. elim (Bool-cases (leb next i)) [
    | inl far ↦ long i (ground arith) to chunk
    | inr near ↦ elim (Bool-cases (leb i 0)) [
      | inl here ↦ ground (arith, wide, here)
      | inr inner ↦ absurd (gap i (ground arith) (ground arith) chunk)
    ]
  ],
)

-- The first round of the loop: it stops at once, or goes on from the next chunk.
first_round :
    (n : ℕ) (separators str : Wide) (max_width : ℕ)
    → length str ≡ n
    → Decides separators str max_width (start_from n separators str max_width n 0)
unfolding Decides
first_round zero separators str max_width e =
    inl (start_from-zero separators str max_width 0 0, inl (omega arith))
first_round (suc n) separators str max_width e = elim (Bool-cases (leb (suc n) max_width)) [
  | inl fits ↦ inl (start_from-fits n separators str max_width (suc n) 0 fits, inl (ground arith))
  | inr wide ↦ elim (Option-cases (next_chunk separators str 0)) [
    | inl last ↦ inl (
      start_from-last n separators str max_width (suc n) 0 last,
      inr (next_chunk-NoChunkAfter separators str 0 last),
    )
    | inr (next, more) ↦
        let bounds = next_chunk-bounds separators str 0 next more in
        let (chunk, gap) = next_chunk-BeginsChunk separators str 0 next more in
        let rest =
          start_from-Stops n separators str (max_width - 2) (suc n - (next - 0)) next (omega arith)
            (omega arith) chunk (omega arith) (omega arith) in
        let stop = start_from n separators str (max_width - 2) (suc n - (next - 0)) next in
        subst (Decides separators str max_width)
          (sym (start_from-next n separators str max_width (suc n) 0 next wide more))
          (inr
            (cut_later separators str max_width next stop (ground (arith, wide)) bounds.0 gap rest))
  ]
]

-- A text that fits, or that has only one chunk, is kept whole. Any other one is cut at the first chunk from
-- which it fits behind the prefix, or else at the last chunk; the prefix stands before what is kept. A
-- chunk begins at a character that is no separator, behind a separator. The width is at least the
-- prefix's, two characters.
pub truncate_leading_chunks_fits :
    (str separators : Wide) (max_width : ℕ)
    → 2 ≤ max_width
    → IsTruncated separators str max_width (truncate_leading_chunks str separators max_width)
unfolding Decides IsTruncated TooLongBetween
truncate_leading_chunks_fits str separators max_width l =
    elim (first_round (length str) separators str max_width refl) [
      | inl (stop, why) ↦ inl (truncated-from str separators max_width 0 stop, why)
      | inr (wide, low, high, chunk, why, long) ↦
          let k = start_from (length str) separators str max_width (length str) 0 in
          let result = truncated-from str separators max_width k refl ∙ if_later str k low in
          inr (
            k,
            wide,
            chunk,
            result,
            elim why [
              | inl last ↦ inl last
              | inr fits ↦ inr (
                  ground (
                    arith,
                    ap length result,
                    length-append truncation_prefix (drop k str),
                    length-drop k str,
                  ))
            ],
            λ i to begins.
                let too_long = long i (omega arith) to begins in
                ground (
                  arith,
                  too_long,
                  length-append truncation_prefix (drop i str),
                  length-drop i str,
                ),
          )
    ]
