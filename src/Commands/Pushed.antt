-- ===== src/Commands/Pushed.antt =====
-- src/unrealsdk/game/bl2/console.cpp: the lines that the ring shows after one is written to it.
use native.Mathlib.Nat.{mod-eq_of_lt}
use unrealsdk.Base.{
  zero, suc, ◌≤◌, ltb, [], ◌∷◌, ◌++◌, drop, ap, ◌∙◌, sym, ℕ, ◌+◌, ◌-◌, ◌%◌, ◌<◌, ◌≡◌, ◌≢◌, ◌==◌,
  true, false, if◌then◌else◌, Option, none, some, Wide, arith, Bool-cases, inl, inr,
}
use unrealsdk.Commands.Console.{next_bot}
use unrealsdk.Commands.Ring.{
  HasBot, shown, next_lem, next_bot-HasBot, wrapped, entries_from, lines, with_line,
  length-entries_from, entries_from-last, entries_from-other, entries_from-wrapped,
}

shift :
    (dim : ℕ) (entries : ℕ → Wide) (i n : ℕ)
    → i ≤ dim
    → n ≤ dim
    → entries_from dim entries (wrapped dim i) n ≡ entries_from dim entries i n
unfolding wrapped
shift dim entries i n l u = elim (Bool-cases (ltb i dim)) [
  | inl e ↦ ap (λ c. entries_from dim entries (if c then i else i - dim) n) e
  | inr e ↦
      ap (λ c. entries_from dim entries (if c then i else i - dim) n) e
      ∙ sym (entries_from-wrapped dim entries i n (ground arith) (ground arith))
]

-- Where the oldest entry of a ring and the next free position stand.
ring_end :
    (dim top b : ℕ)
    → top < dim
    → b < dim
    → b ≢ top
    → (wrapped dim (b + shown dim top (some b)) ≡ top)
      × (0 < shown dim top (some b))
      × (shown dim top (some b) < dim)
unfolding wrapped
ring_end dim top b t l other =
    (ground (arith, t, l, other), ground (arith, t, l, other), ground (arith, t, l, other))

inner_other :
    (dim top b j : ℕ)
    → top < dim
    → b < dim
    → b ≢ top
    → b ≤ j
    → j < b + shown dim top (some b)
    → wrapped dim j ≢ top
unfolding wrapped
inner_other dim top b j t l other from to = λ e. absurd (ground (arith, t, l, other, from, to, e))

module _ (dim : ℕ) (line : Wide) (entries : ℕ → Wide) (top b : ℕ) (t : top < dim) (l : b < dim)
    (other : b ≢ top) where
  written : ℕ → Wide
  written k = if k == top then line else entries k

  -- The line stands behind all but the entry that is passed over.
  written_last :
      (skipped n : ℕ)
      → skipped + n ≡ shown dim top (some b)
      → entries_from dim written (b + skipped) (suc n)
        ≡ entries_from dim entries (b + skipped) n ++ line ∷ []
  unfolding written
  written_last skipped n e =
      let (end, some_entry, room) = ring_end dim top b t l other in
      let at : wrapped dim (b + skipped + n) ≡ top = ap (wrapped dim) (omega (arith, e)) ∙ end in
      let last : written (wrapped dim (b + skipped + n)) ≡ line = ground (arith, at) in
      entries_from-last dim written (b + skipped) n
      ∙ ap (λ x. entries_from dim written (b + skipped) n ++ x ∷ []) last
      ∙ ap (λ x. x ++ line ∷ [])
          (entries_from-other dim line entries top (b + skipped) n
            (λ j from to. inner_other dim top b j t l other (omega arith) (omega (arith, e))))

module _ (dim : ℕ) (line : Wide) (entries : ℕ → Wide) (top : ℕ) (d : 1 < dim) (t : top < dim) where
  with_line-entries_from :
      (b n : ℕ)
      → with_line dim line (entries_from dim entries b n)
        ≡ (if n + 1 == dim
            then drop 1 (entries_from dim entries b n)
            else entries_from dim entries b n)
          ++ line ∷ []
  unfolding with_line
  with_line-entries_from b n =
      ap
        (λ k.
          (if k + 1 == dim
            then drop 1 (entries_from dim entries b n)
            else entries_from dim entries b n)
          ++ line ∷ [])
        (length-entries_from dim entries b n)

  dropped_first :
      (b n : ℕ)
      → 0 < n
      → drop 1 (entries_from dim entries b n) ≡ entries_from dim entries (b + 1) (n - 1)
  unfolding entries_from
  dropped_first b zero l = absurd (omega arith)
  dropped_first b (suc n) l =
      let start : suc b ≡ b + 1 = omega arith in
      let size : n ≡ suc n - 1 = omega arith in
      ap (λ k. entries_from dim entries k n) start ∙ ap (entries_from dim entries (b + 1)) size

  next_bot_full :
      (b : ℕ)
      → b < dim
      → b ≢ top
      → (shown dim top (some b) + 1 == dim) ≡ true
      → next_bot dim (some b) ((top + 1) % dim) ≡ some (wrapped dim (b + 1))
  unfolding next_bot wrapped
  next_bot_full b l other full =
      ground (arith, next_lem dim top t, next_lem dim b l, l, other, full)

  next_bot_room :
      (b : ℕ)
      → b < dim
      → b ≢ top
      → (shown dim top (some b) + 1 == dim) ≡ false
      → next_bot dim (some b) ((top + 1) % dim) ≡ some b
  unfolding next_bot
  next_bot_room b l other room = ground (arith, next_lem dim top t, l, other, room)

  first_line :
      (i : ℕ)
      → i ≡ 0
      → top ≡ 0
      → (if wrapped dim i == top then line else entries (wrapped dim i)) ≡ line
  unfolding wrapped
  first_line i e v = ground (arith, e, v)

  pub pushed_lines :
      (bot : Option ℕ)
      → HasBot dim top bot
      → lines dim
          (λ k. if k == top then line else entries k)
          ((top + 1) % dim)
          (next_bot dim bot ((top + 1) % dim))
        ≡ with_line dim line (lines dim entries top bot)
  unfolding lines written with_line next_bot entries_from
  pushed_lines none v =
      let after : ℕ → Wide = λ k. if k == top then line else entries k in
      let first : 0 % dim ≡ 0 = mod-eq_of_lt (omega arith) in
      let count : shown dim ((top + 1) % dim) (some (0 % dim)) ≡ suc 0 =
        (next_bot-HasBot dim top none d t v).1 ∙ ground arith in
      let here : after (wrapped dim (0 % dim)) ≡ line = first_line (0 % dim) first v in
      ap (entries_from dim after (0 % dim)) count
      ∙ ap (λ x. x ∷ []) here
      ∙ sym (with_line-entries_from 0 0 ∙ ground arith)
  pushed_lines (some b) v =
      let n = shown dim top (some b) in
      let top' = (top + 1) % dim in
      let after : ℕ → Wide = λ k. if k == top then line else entries k in
      let count = (next_bot-HasBot dim top (some b) d t v).1 in
      let (end, some_entry, small) = ring_end dim top b t v.0 v.1 in
      elim (Bool-cases (n + 1 == dim)) [
        | inl full ↦
            let bot = next_bot_full b v.0 v.1 full in
            let size : shown dim top' (some (wrapped dim (b + 1))) ≡ suc (n - 1) =
              ap (shown dim top') (sym bot) ∙ count ∙ ground (arith, full, some_entry) in
            ap (lines dim after top') bot
            ∙ ap (entries_from dim after (wrapped dim (b + 1))) size
            ∙ shift dim after (b + 1) (suc (n - 1)) (omega arith) (omega arith)
            ∙ written_last dim line entries top b t v.0 v.1 1 (n - 1) (omega arith)
            ∙ ap (λ x. x ++ line ∷ []) (sym (dropped_first b n some_entry))
            ∙ sym (
                ap
                  (λ c.
                    (if c
                      then drop 1 (entries_from dim entries b n)
                      else entries_from dim entries b n)
                    ++ line ∷ [])
                  full)
            ∙ sym (with_line-entries_from b n)
        | inr room ↦
            let bot = next_bot_room b v.0 v.1 room in
            let size : shown dim top' (some b) ≡ suc n =
              ap (shown dim top') (sym bot) ∙ count ∙ ground (arith, room) in
            ap (lines dim after top') bot
            ∙ ap (entries_from dim after b) size
            ∙ ap (λ k. entries_from dim after k (suc n)) (omega arith)
            ∙ written_last dim line entries top b t v.0 v.1 0 n (omega arith)
            ∙ ap (λ k. entries_from dim entries k n ++ line ∷ []) (omega arith)
            ∙ sym (
                ap
                  (λ c.
                    (if c
                      then drop 1 (entries_from dim entries b n)
                      else entries_from dim entries b n)
                    ++ line ∷ [])
                  room)
            ∙ sym (with_line-entries_from b n)
      ]
