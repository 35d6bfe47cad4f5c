-- ===== src/Memory/MultiScan/Preprocess.antt =====
-- src/unrealsdk/multi_sigscan.h, `multi_sigscan_preprocess`: which byte it picks, and where the patterns
-- are anchored.
use mathlib.Core.Option.{some-injective}
use unrealsdk.Base.{
  ℕ, ◌-◌, ◌<◌, ◌≤◌, ◌≡◌, refl, subst, Bool, true, false, if◌then◌else◌, inl, inr, none, some,
  Option, List, [], ◌∷◌, length, arith, Bool-cases, ==_iff,
}
use unrealsdk.Memory.MultiScan.{
  MultiPattern, count_patterns, is_ignored, ignore_common, no_count, pick_byte, find_anchor, max,
  set_start_offset, overscan_with, place_anchors, multi_sigscan_preprocess,
}
use unrealsdk.Memory.MultiScan.Anchors.{IsAnchor, HasByte, find_anchor_found, find_anchor_absent}
use unrealsdk.Memory.MultiScan.Counts.{
  AllHave, PickOf, Small, count_patterns_sound, count_patterns_complete, count_patterns-Small,
  pick_byte-PickOf,
}

-- The pattern is anchored at its start offset, and what follows the anchor is no longer than the
-- overscan.
unfoldable pub Anchored : ℕ → ℕ → MultiPattern → Type 0
Anchored byte overscan p =
    (p.start_offset < p.pattern_size)
    × IsAnchor p byte p.start_offset
    × (p.pattern_size - p.start_offset - 1 ≤ overscan)

-- The second list has the patterns of the first, each anchored.
unfoldable pub AllAnchored : ℕ → ℕ → List MultiPattern → List MultiPattern → Type 0
AllAnchored byte overscan [] [] = Unit
AllAnchored byte overscan [] (q ∷ qs) = ⊥
AllAnchored byte overscan (p ∷ ps) [] = ⊥
AllAnchored byte overscan (p ∷ ps) (q ∷ qs) =
    (q ≡ (record p { start_offset = q.start_offset }))
    × Anchored byte overscan q
    × AllAnchored byte overscan ps qs

overscan_with_grows :
    (overscan : ℕ) (p : MultiPattern) (at : Option ℕ) → overscan ≤ overscan_with overscan p at
unfolding overscan_with max
overscan_with_grows overscan p none = omega arith
overscan_with_grows overscan p (some i) = ground arith

place_anchors_grows :
    (ps : List MultiPattern) (byte overscan : ℕ) → overscan ≤ (place_anchors ps byte overscan).0
unfolding place_anchors
place_anchors_grows [] byte overscan = omega arith
place_anchors_grows (p ∷ ps) byte overscan =
    let at = find_anchor p byte 0 p.pattern_size in
    omega (
      arith,
      overscan_with_grows overscan p at,
      place_anchors_grows ps byte (overscan_with overscan p at),
    )

set_start_offset-Anchored :
    (p : MultiPattern) (byte overscan overscan' : ℕ) (at : Option ℕ)
    → HasByte p byte
    → find_anchor p byte 0 p.pattern_size ≡ at
    → overscan_with overscan p at ≤ overscan'
    → Anchored byte overscan' (set_start_offset p at)
unfolding set_start_offset overscan_with Anchored max IsAnchor HasByte
set_start_offset-Anchored p byte overscan overscan' none h e l =
    absurd (find_anchor_absent p byte 0 p.pattern_size e h)
set_start_offset-Anchored p byte overscan overscan' (some i) h e l =
    let r = find_anchor_found p byte 0 p.pattern_size i e in (omega (arith, r.1), r.2, ground arith)

set_start_offset_same :
    (p : MultiPattern) (at : Option ℕ)
    → set_start_offset p at ≡ (record p { start_offset = (set_start_offset p at).start_offset })
unfolding set_start_offset
set_start_offset_same p none = refl
set_start_offset_same p (some i) = refl

place_anchors-AllAnchored :
    (ps : List MultiPattern) (byte overscan : ℕ)
    → AllHave byte ps
    → AllAnchored byte (place_anchors ps byte overscan).0 ps (place_anchors ps byte overscan).1
unfolding place_anchors AllHave AllAnchored
place_anchors-AllAnchored [] byte overscan h = tt
place_anchors-AllAnchored (p ∷ ps) byte overscan h =
    let at = find_anchor p byte 0 p.pattern_size in
    let next = overscan_with overscan p at in
    (
      set_start_offset_same p at,
      set_start_offset-Anchored p byte overscan _ at h.0 refl (place_anchors_grows ps byte next),
      place_anchors-AllAnchored ps byte next h.1,
    )

guarded_some :
    {A : Type 0} (c : Bool) (x y : A)
    → (if c then none else some x) ≡ some y
    → (c ≡ false) × (x ≡ y)
guarded_some true x y e = absurd (ground arith)
guarded_some false x y e = (refl, some-injective _ _ e)

guarded_none : {A : Type 0} (c : Bool) (x : A) → (if c then none else some x) ≡ none → c ≡ true
guarded_none true x e = refl
guarded_none false x e = absurd (ground arith)

module _ (ps : List MultiPattern) where
  unfoldable counted : (ℕ → ℕ) × (ℕ → ℕ)
  counted = count_patterns ps (λ b. 0) (λ b. 0)

  picked_byte-PickOf :
      PickOf counted.0
        (ignore_common counted.1)
        (length ps)
        0
        256
        0
        no_count
        (pick_byte counted.0 (ignore_common counted.1) (length ps) 0 256 0 no_count)
  picked_byte-PickOf =
      pick_byte-PickOf counted.0 (ignore_common counted.1) (length ps) 0 256 0 no_count

  in_all-AllHave :
      (b : ℕ)
      → 0 < length ps
      → length ps ≤ ignore_common counted.1 b
      → (is_ignored b ≡ false) × AllHave b ps
  unfolding counted ignore_common
  in_all-AllHave b full l = elim (Bool-cases (is_ignored b)) [
    | inl e ↦ absurd (ground arith)
    | inr e ↦ (e, count_patterns_sound b ps (λ b. 0) (λ b. 0) (ground arith))
  ]

  -- When the patterns are preprocessed, the byte is none of the four common ones, each pattern is
  -- anchored at a byte of this value that its mask leaves whole, with no more bytes after it than the
  -- overscan, and nothing else of the pattern is changed.
  pub multi_sigscan_preprocess-AllAnchored :
      (qs : List MultiPattern) (byte overscan : ℕ)
      → 0 < length ps
      → multi_sigscan_preprocess ps ≡ some (byte, overscan, qs)
      → (byte < 256) × (is_ignored byte ≡ false) × AllAnchored byte overscan ps qs
  unfolding multi_sigscan_preprocess PickOf counted
  multi_sigscan_preprocess-AllAnchored qs byte overscan full e =
      let (found, same) = guarded_some _ _ _ e in
      let (most, least, kept) = picked_byte-PickOf in
      elim kept [
        | inl (at, count) ↦ absurd (ground arith)
        | inr (l, u, h, count) ↦
            let (other, all) = in_all-AllHave _ full h in
            subst (λ t. (t.0 < 256) × (is_ignored t.0 ≡ false) × AllAnchored t.0 t.1 ps t.2) same
              (u, other, place_anchors-AllAnchored ps _ 0 all)
      ]

  -- With at most 255 patterns, the preprocessing throws only when no byte but the four common ones is
  -- in all patterns, and left whole by their masks.
  pub multi_sigscan_preprocess_throws :
      (b : ℕ)
      → length ps ≤ 255
      → b < 256
      → is_ignored b ≡ false
      → multi_sigscan_preprocess ps ≡ none
      → ¬ AllHave b ps
  unfolding multi_sigscan_preprocess PickOf counted ignore_common Small
  multi_sigscan_preprocess_throws b l u kept e all =
      let (most, least, picked) = picked_byte-PickOf in
      let in_all = count_patterns_complete b ps (λ b. 0) (λ b. 0) all (omega arith) in
      let small = count_patterns-Small ps (λ b. 0) (λ b. 0) (λ b. omega arith) b in
      let few = least b (omega arith) u (ground arith) in
      let top = (==_iff _ no_count).0 (guarded_none _ _ e) in absurd (omega arith)
