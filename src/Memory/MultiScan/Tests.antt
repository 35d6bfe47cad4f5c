-- ===== src/Memory/MultiScan/Tests.antt =====
-- A search for two patterns at concrete inputs.
use mathlib.Core.List.Permᴰ
use unrealsdk.Base.{ℕ, ◌<◌, ◌≡◌, refl, false, if◌then◌else◌, ◌==◌, none, some, List, [], ◌∷◌, arith}
use unrealsdk.Memory.{Bytes, is_found}
use unrealsdk.Memory.MultiScan.{
  MultiPattern, set_at, saturating_add, add_seen, count_bytes, count_patterns, is_ignored,
  ignore_common, pick_byte, find_anchor, max, set_start_offset, overscan_with, place_anchors,
  multi_sigscan_preprocess, find, new_result, try_pattern, multi_sigscan_thread, run_threads,
  num_threads, size_per_thread, clipped, thread_ranges, multi_sigscan,
}
use unrealsdk.Memory.MultiScan.Counts.{AllHave}
use unrealsdk.Memory.MultiScan.Preprocess.{
  AllAnchored, multi_sigscan_preprocess-AllAnchored, multi_sigscan_preprocess_throws,
}
use unrealsdk.Memory.MultiScan.Search.{AllFresh, AllFirst, multi_sigscan-AllFirst}

abbrev memory : Bytes
memory a = if a == 20 then 5 else if a == 21 then 7 else 0

-- The bytes 5 and 7.
abbrev whole : MultiPattern
whole = record {
  bytes = λ j. if j == 0 then 5 else 7;
  mask = λ j. 255;
  pattern_size = 2;
  offset = 3;
  start_offset = 0;
  result = 0;
}

-- The byte 7 and any byte.
abbrev masked : MultiPattern
masked = record {
  bytes = λ j. if j == 0 then 7 else 0;
  mask = λ j. if j == 0 then 255 else 0;
  pattern_size = 2;
  offset = 0;
  start_offset = 0;
  result = 0;
}

abbrev patterns : List MultiPattern
patterns = whole ∷ masked ∷ []

abbrev anchored : List MultiPattern
anchored = (record whole { start_offset = 1 }) ∷ masked ∷ []

preprocess_test : multi_sigscan_preprocess patterns ≡ some (7, 1, anchored)
unfolding multi_sigscan_preprocess count_patterns count_bytes set_at saturating_add add_seen
    is_ignored ignore_common pick_byte find_anchor max set_start_offset overscan_with place_anchors
preprocess_test = refl

multi_sigscan_preprocess-AllAnchored_example :
    (7 < 256) × (is_ignored 7 ≡ false) × AllAnchored 7 1 patterns anchored
multi_sigscan_preprocess-AllAnchored_example =
    multi_sigscan_preprocess-AllAnchored patterns anchored 7 1 (omega arith) preprocess_test

-- The byte 5 is not in the pattern of the byte 7 alone.
abbrev apart : List MultiPattern
apart = (record whole { pattern_size = 1 }) ∷ masked ∷ []

apart_throws : multi_sigscan_preprocess apart ≡ none
unfolding multi_sigscan_preprocess count_patterns count_bytes set_at saturating_add add_seen
    is_ignored ignore_common pick_byte
apart_throws = refl

five_kept : is_ignored 5 ≡ false
unfolding is_ignored
five_kept = refl

multi_sigscan_preprocess_throws_test : ¬ AllHave 5 apart
multi_sigscan_preprocess_throws_test =
    multi_sigscan_preprocess_throws apart 5 (omega arith) (omega arith) five_kept apart_throws

-- A search of 40 bytes from address 16 finds both.
multi_sigscan_test :
    multi_sigscan memory 32 8 (λ ranges. ranges) 16 40 patterns
    ≡ some ((record whole { start_offset = 1; result = 23 }) ∷ (record masked { result = 21 }) ∷ [])
unfolding multi_sigscan_preprocess count_patterns count_bytes set_at saturating_add add_seen
    is_ignored ignore_common pick_byte find_anchor max set_start_offset overscan_with place_anchors
    find new_result try_pattern multi_sigscan_thread run_threads num_threads size_per_thread clipped
    thread_ranges multi_sigscan is_found
multi_sigscan_test = refl

-- With one core, no thread is left, and the division is by zero.
one_core_test : multi_sigscan memory 32 1 (λ ranges. ranges) 16 40 patterns ≡ none
unfolding multi_sigscan_preprocess count_patterns count_bytes set_at saturating_add add_seen
    is_ignored ignore_common pick_byte find_anchor max set_start_offset overscan_with place_anchors
    num_threads size_per_thread multi_sigscan
one_core_test = refl

memory_bounded : (m : ℕ) → memory m < 256
memory_bounded m = ground arith

patterns-AllFresh : AllFresh 32 16 40 patterns
unfolding AllFresh
patterns-AllFresh = (refl, omega arith, omega arith, (refl, omega arith, omega arith, tt))

multi_sigscan-AllFirst_example :
    (rs : List MultiPattern) × (multi_sigscan memory 32 8 (λ ranges. ranges) 16 40 patterns
      ≡ some rs)
    × AllFirst memory 32 16 40 anchored rs
multi_sigscan-AllFirst_example =
    multi_sigscan-AllFirst memory 32 8 (λ ranges. ranges) 16 40 patterns anchored 7 1 memory_bounded
      (omega arith) (λ ranges. Permᴰ.refl ranges) (omega arith) patterns-AllFresh preprocess_test
