-- ===== src/Commands/Ring.antt =====
-- src/unrealsdk/game/bl2/console.cpp: the console's history as a ring, and the lines it shows.
use native.Mathlib.Nat.{mod-eq_of_lt}
use unrealsdk.Base.{
  zero, suc, ◌≤◌, ltb, List, [], ◌∷◌, ◌++◌, drop, ap, ◌∙◌, ℕ, ◌+◌, ◌-◌, ◌%◌, ◌<◌, ◌≡◌, ◌≢◌, ◌==◌,
  refl, if◌then◌else◌, Option, none, some, Wide, arith, leb, length,
}
use unrealsdk.Commands.Console.{History, next_bot}

-- The entries from `bot` up to `top`, which is never shown; an empty history starts at 0.
abbrev pub HasBot : ℕ → ℕ → Option ℕ → Type 0
HasBot dim top none = top ≡ 0
HasBot dim top (some b) = (b < dim) × (b ≢ top)

pub record IsRing (dim : ℕ) (h : History) : Type 0 where
  pub top_lt : h.top < dim
  pub has_bot : HasBot dim h.top h.bot

abbrev pub shown : ℕ → ℕ → Option ℕ → ℕ
shown dim top none = 0
shown dim top (some b) = if leb b top then top - b else top + dim - b

pub next_lem : (dim i : ℕ) → i < dim → (i + 1) % dim ≡ (if i + 1 == dim then 0 else i + 1)
next_lem dim i h = grind (arith, mod-eq_of_lt)

pub next_bot-HasBot :
    (dim top : ℕ) (bot : Option ℕ)
    → 1 < dim
    → top < dim
    → HasBot dim top bot
    → HasBot dim ((top + 1) % dim) (next_bot dim bot ((top + 1) % dim))
      × (shown dim ((top + 1) % dim) (next_bot dim bot ((top + 1) % dim))
          ≡ (if shown dim top bot + 1 == dim then dim - 1 else shown dim top bot + 1))
unfolding next_bot
next_bot-HasBot dim top none d t v = ground (arith, next_lem dim top t)
next_bot-HasBot dim top (some b) d t v = ground (arith, next_lem dim top t, next_lem dim b v.0)

-- A position in the ring, for one that may have passed its end once.
unfoldable pub wrapped : ℕ → ℕ → ℕ
wrapped dim i = if ltb i dim then i else i - dim

-- `n` entries from a position on, the oldest one first.
unfoldable pub entries_from : ℕ → (ℕ → Wide) → ℕ → ℕ → List Wide
entries_from dim entries i zero = []
entries_from dim entries i (suc n) = entries (wrapped dim i) ∷ entries_from dim entries (suc i) n

-- What the console shows of its history.
unfoldable pub lines : ℕ → (ℕ → Wide) → ℕ → Option ℕ → List Wide
lines dim entries top none = []
lines dim entries top (some b) = entries_from dim entries b (shown dim top (some b))

abbrev pub lines_of : ℕ → History → List Wide
lines_of dim h = lines dim h.entries h.top h.bot

-- The oldest line goes when there is no room for another one.
unfoldable pub with_line : ℕ → Wide → List Wide → List Wide
with_line dim line lines = (if length lines + 1 == dim then drop 1 lines else lines) ++ line ∷ []

pub length-entries_from :
    (dim : ℕ) (entries : ℕ → Wide) (i n : ℕ) → length (entries_from dim entries i n) ≡ n
unfolding entries_from
length-entries_from dim entries i zero = refl
length-entries_from dim entries i (suc n) = ap suc (length-entries_from dim entries (suc i) n)

pub entries_from-last :
    (dim : ℕ) (entries : ℕ → Wide) (i n : ℕ)
    → entries_from dim entries i (suc n)
      ≡ entries_from dim entries i n ++ entries (wrapped dim (i + n)) ∷ []
unfolding entries_from
entries_from-last dim entries i zero = ap (λ k. entries (wrapped dim k) ∷ []) (omega arith)
entries_from-last dim entries i (suc n) = ap (◌∷◌ (entries (wrapped dim i))) (
    entries_from-last dim entries (suc i) n
    ∙ ap (λ k. entries_from dim entries (suc i) n ++ entries (wrapped dim k) ∷ []) (omega arith))

-- A write to a position that is not among them.
pub entries_from-other :
    (dim : ℕ) (line : Wide) (entries : ℕ → Wide) (top i n : ℕ)
    → ((j : ℕ) → i ≤ j → j < i + n → wrapped dim j ≢ top)
    → entries_from dim (λ k. if k == top then line else entries k) i n
      ≡ entries_from dim entries i n
unfolding entries_from
entries_from-other dim line entries top i zero other = refl
entries_from-other dim line entries top i (suc n) other =
    let here = other i (omega arith) (omega arith) in
    let same : (if wrapped dim i == top then line else entries (wrapped dim i))
        ≡ entries (wrapped dim i) =
      ground (arith, here) in
    cc (
      same,
      entries_from-other dim line entries top (suc i) n
          (λ j l u. other j (omega arith) (omega arith)),
    )

-- From the last position, the next one is the first.
pub entries_from-wrapped :
    (dim : ℕ) (entries : ℕ → Wide) (i n : ℕ)
    → dim ≤ i
    → i + n ≤ dim + dim
    → entries_from dim entries i n ≡ entries_from dim entries (i - dim) n
unfolding entries_from wrapped
entries_from-wrapped dim entries i zero l u = refl
entries_from-wrapped dim entries i (suc n) l u =
    let first : wrapped dim i ≡ wrapped dim (i - dim) = ground (arith, l, u) in
    ap (λ k. entries k ∷ entries_from dim entries (suc i) n) first
    ∙ ap (◌∷◌ (entries (wrapped dim (i - dim)))) (
        entries_from-wrapped dim entries (suc i) n (omega arith) (omega arith)
        ∙ ap (λ k. entries_from dim entries k n) (omega arith))
