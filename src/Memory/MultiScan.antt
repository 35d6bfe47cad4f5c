-- ===== src/Memory/MultiScan.antt =====
-- src/unrealsdk/multi_sigscan.h: the search for several patterns at once, around a byte that is in all
-- of them, with one thread for each part of the range.
pub mod Anchors
pub mod Counts
pub mod Preprocess
pub mod Ranges
pub mod Results
pub mod Runs
pub mod Search
pub mod Threads
mod Tests
use unrealsdk.Base.{
  ℕ, zero, suc, ◌+◌, ◌-◌, ◌/◌, ◌%◌, ◌^◌, Bool, true, false, not, ◌&&◌, ◌||◌, if◌then◌else◌, ◌==◌,
  ltb, Option, none, some, List, [], ◌∷◌, map, length,
}
use unrealsdk.Memory.{Bytes, is_found}

pub record MultiPattern : Type 0 where
  pub bytes : Bytes
  pub mask : Bytes
  pub pattern_size : ℕ
  pub offset : ℕ
  pub start_offset : ℕ
  pub result : ℕ

-- An array whose cell at `i` was overwritten.
unfoldable pub set_at : {A : Type 0} → (ℕ → A) → ℕ → A → ℕ → A
set_at f i v j = if i == j then v else f j

unfoldable pub saturating_add : ℕ → ℕ
saturating_add n = if ltb n 255 then suc n else 255

-- The loop over the bytes of a pattern, from `i`, with `n` left. The second array is the bits that are
-- set in `seen_bytes`.
unfoldable pub count_bytes : MultiPattern → ℕ → ℕ → (ℕ → ℕ) → (ℕ → Bool) → (ℕ → ℕ) × (ℕ → Bool)
count_bytes p i zero counts seen = (counts, seen)
count_bytes p i (suc n) counts seen =
    let counted = set_at counts (p.bytes i) (saturating_add (counts (p.bytes i))) in
    let unmasked = p.mask i == 255 in
    count_bytes p (suc i) n (if unmasked then counted else counts)
      (if unmasked then set_at seen (p.bytes i) true else seen)

-- The loop over the 256 byte values after a pattern.
unfoldable pub add_seen : (ℕ → Bool) → (ℕ → ℕ) → ℕ → ℕ
add_seen seen with_byte b = if seen b then saturating_add (with_byte b) else with_byte b

-- The loop over the patterns, with `byte_counts` and `patterns_with_byte`.
unfoldable pub count_patterns : List MultiPattern → (ℕ → ℕ) → (ℕ → ℕ) → (ℕ → ℕ) × (ℕ → ℕ)
count_patterns [] counts with_byte = (counts, with_byte)
count_patterns (p ∷ ps) counts with_byte =
    let r = count_bytes p 0 p.pattern_size counts (λ b. false) in
    count_patterns ps r.0 (add_seen r.1 with_byte)

unfoldable pub is_ignored : ℕ → Bool
is_ignored b = b == 0 || b == 36 || b == 72 || b == 255

unfoldable pub ignore_common : (ℕ → ℕ) → ℕ → ℕ
ignore_common with_byte b = if is_ignored b then 0 else with_byte b

-- `std::numeric_limits<uint32_t>::max()`
abbrev pub no_count : ℕ
no_count = 4294967295

-- The loop that picks the byte, from `i`, with `k` bytes left.
unfoldable pub pick_byte : (ℕ → ℕ) → (ℕ → ℕ) → ℕ → ℕ → ℕ → ℕ → ℕ → ℕ × ℕ
pick_byte counts with_byte n i zero byte found = (byte, found)
pick_byte counts with_byte n i (suc k) byte found =
    let better = not (ltb (with_byte i) n) && ltb (counts i) found in
    pick_byte counts with_byte n (suc i) k (if better then i else byte)
      (if better then counts i else found)

-- The loop that looks for the byte in a pattern, from `i`, with `n` bytes of the pattern left.
unfoldable pub find_anchor : MultiPattern → ℕ → ℕ → ℕ → Option ℕ
find_anchor p byte i zero = none
find_anchor p byte i (suc n) =
    let rest = find_anchor p byte (suc i) n in
    if p.mask i == 255 && p.bytes i == byte then some i else rest

unfoldable pub max : ℕ → ℕ → ℕ
max a b = if ltb a b then b else a

unfoldable pub set_start_offset : MultiPattern → Option ℕ → MultiPattern
set_start_offset p none = p
set_start_offset p (some i) = record p { start_offset = i }

unfoldable pub overscan_with : ℕ → MultiPattern → Option ℕ → ℕ
overscan_with overscan p none = overscan
overscan_with overscan p (some i) = max overscan (p.pattern_size - i - 1)

-- The loop that sets the start offsets and the overscan.
unfoldable pub place_anchors : List MultiPattern → ℕ → ℕ → ℕ × List MultiPattern
place_anchors [] byte overscan = (overscan, [])
place_anchors (p ∷ ps) byte overscan =
    let at = find_anchor p byte 0 p.pattern_size in
    let rest = place_anchors ps byte (overscan_with overscan p at) in
    (rest.0, set_start_offset p at ∷ rest.1)

-- `multi_sigscan_preprocess`: the byte, the overscan and the patterns, or none where it throws.
unfoldable pub multi_sigscan_preprocess : List MultiPattern → Option (ℕ × ℕ × List MultiPattern)
multi_sigscan_preprocess ps =
    let r = count_patterns ps (λ b. 0) (λ b. 0) in
    let picked = pick_byte r.0 (ignore_common r.1) (length ps) 0 256 0 no_count in
    if picked.1 == no_count
    then none
    else some (picked.0, (place_anchors ps picked.0 0).0, (place_anchors ps picked.0 0).1)

-- `std::find` from `pos` over `n` bytes: the match, and how many bytes are left after it.
unfoldable pub find : Bytes → ℕ → ℕ → ℕ → Option (ℕ × ℕ)
find memory byte pos zero = none
find memory byte pos (suc n) =
    let rest = find memory byte (suc pos) n in if memory pos == byte then some (pos, n) else rest

-- The value that is swapped into a result.
unfoldable pub new_result : ℕ → ℕ → ℕ
new_result old_result result =
    if not (old_result == 0) && ltb old_result result then old_result else result

module _ (memory : Bytes) (w : ℕ) where
  -- The body of the loop over the patterns, for a byte found at `match_address`. Pointers have `w` bits.
  unfoldable pub try_pattern : ℕ → MultiPattern → MultiPattern
  try_pattern match_address p =
      let sig_start = (match_address + 2 ^ w - p.start_offset) % 2 ^ w in
      if is_found memory p.bytes p.mask sig_start 0 p.pattern_size
      then record p { result = new_result p.result ((sig_start + p.offset) % 2 ^ w) }
      else p

  -- `multi_sigscan_thread` over `n` bytes from `pos`, or none when the rounds in the first argument are
  -- not enough.
  unfoldable pub multi_sigscan_thread :
      ℕ → ℕ → ℕ → ℕ → List MultiPattern → Option (List MultiPattern)
  multi_sigscan_thread zero byte pos n ps = none
  multi_sigscan_thread (suc fuel) byte pos n ps = elim (find memory byte pos n) [
    | none ↦ some ps
    | some (match_address, left) ↦
        multi_sigscan_thread fuel byte (suc match_address) left (map (try_pattern match_address) ps)
  ]

  -- The threads, in the order in which they run: each has a position and a number of bytes.
  unfoldable pub run_threads : ℕ → List (ℕ × ℕ) → List MultiPattern → Option (List MultiPattern)
  run_threads byte [] ps = some ps
  run_threads byte ((pos, n) ∷ ranges) ps = elim (multi_sigscan_thread (suc n) byte pos n ps) [
    | none ↦ none
    | some qs ↦ run_threads byte ranges qs
  ]

-- How many threads are used, from `hardware_concurrency`.
unfoldable pub num_threads : ℕ → ℕ
num_threads hardware_concurrency =
    (if hardware_concurrency == 0 then 8 else hardware_concurrency) - 1

-- How many bytes each thread has, or none for a division by zero.
unfoldable pub size_per_thread : ℕ → ℕ → Option ℕ
size_per_thread hardware_concurrency size =
    if num_threads hardware_concurrency == 0
    then none
    else some (max (size / num_threads hardware_concurrency) 4194304)

unfoldable pub clipped : ℕ → ℕ → ℕ
clipped a b = if ltb a b then a else b

-- The loop that starts the threads, or none when the rounds in the first argument are not enough.
unfoldable pub thread_ranges : ℕ → ℕ → ℕ → ℕ → ℕ → ℕ → Option (List (ℕ × ℕ))
thread_ranges zero start size per_thread overscan start_offset = none
thread_ranges (suc fuel) start size per_thread overscan start_offset =
    let rest = thread_ranges fuel start size per_thread overscan (start_offset + per_thread) in
    if ltb start_offset size
    then elim rest [
      | none ↦ none
      | some ranges ↦
          some
            ((start + start_offset, clipped (per_thread + overscan) (size - start_offset)) ∷ ranges)
    ]
    else some []

-- `multi_sigscan`, whose threads run in the order that `schedule` gives: the patterns with their
-- results, or none where the preprocessing throws or the division is by zero.
unfoldable pub multi_sigscan :
    Bytes
    → ℕ
    → ℕ
    → (List (ℕ × ℕ) → List (ℕ × ℕ))
    → ℕ
    → ℕ
    → List MultiPattern
    → Option (List MultiPattern)
multi_sigscan memory w hardware_concurrency schedule start size ps =
    elim (multi_sigscan_preprocess ps) [
      | none ↦ none
      | some (byte, overscan, qs) ↦ elim (size_per_thread hardware_concurrency size) [
        | none ↦ none
        | some per_thread ↦ elim (thread_ranges (suc size) start size per_thread overscan 0) [
          | none ↦ none
          | some ranges ↦ run_threads memory w byte (schedule ranges) qs
        ]
      ]
    ]
