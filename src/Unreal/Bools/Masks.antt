-- ===== src/Unreal/Bools/Masks.antt =====
-- unreal/properties/zboolproperty.cpp: a write to one bool of a bitfield, and the bools around it.
use Prim.Native.Nat.{min, bit_and, bit_or, bit_and-bitwise}
use native.Mathlib.Nat.{pow-suc}
use unrealsdk.Base.{
  ℕ, zero, suc, ◌-◌, ◌/◌, ◌%◌, ◌^◌, ◌<◌, ◌≡◌, ◌≢◌, refl, sym, ◌∙◌, ap, Bool, true, false, not,
  if◌then◌else◌, ◌==◌, arith, Bool-cases, inl, inr, ◌⊎◌,
}
use unrealsdk.Unreal.Bools.{complement, get_bool, set_bitfield, set_bool}
use unrealsdk.Unreal.Bools.Digits.{bit_and_digit, bit_or_digit}

half : (w x : ℕ) → x < 2 ^ suc w → x / 2 < 2 ^ w
half w x l = omega (arith, pow-suc 2 w)

or_and : (w x m : ℕ) → x < 2 ^ w → m < 2 ^ w → bit_and (bit_or x m) m ≡ m
or_and zero zero zero l u = simp (bit_or_digit 0 0) refl
or_and zero zero (suc m) l u = absurd (omega arith)
or_and zero (suc x) m l u = absurd (omega arith)
or_and (suc w) x m l u =
    let rest = or_and w (x / 2) (m / 2) (half w x l) (half w m u) in
    let upper : bit_or x m / 2 ≡ bit_or (x / 2) (m / 2) = ground (arith, bit_or_digit x m) in
    let lower = bit_or_digit x m in
    let digit = bit_and_digit (bit_or x m) m in
    ground (arith, ap (λ q. bit_and q (m / 2)) upper, digit, lower, rest)

half_complement : (w m : ℕ) → m < 2 ^ suc w → complement (suc w) m / 2 ≡ complement w (m / 2)
unfolding complement
half_complement w m u = omega (arith, pow-suc 2 w)

last_complement : (w m : ℕ) → m < 2 ^ suc w → complement (suc w) m % 2 ≡ 1 - m % 2
unfolding complement
last_complement w m u = omega (arith, pow-suc 2 w)

below_one : (x : ℕ) → x < 2 ^ 0 → x ≡ 0
below_one x l = omega arith

zero_and : (m : ℕ) → bit_and 0 m ≡ 0
zero_and m = simp (bit_and-bitwise) refl

-- The digits of a bitfield without those under a mask.
clear_upper :
    (w x m : ℕ)
    → m < 2 ^ suc w
    → bit_and x (complement (suc w) m) / 2 ≡ bit_and (x / 2) (complement w (m / 2))
clear_upper w x m u =
    let digit = bit_and_digit x (complement (suc w) m) in
    let part = ap (bit_and (x / 2)) (half_complement w m u) in ground (arith, digit, part)

clear_lower :
    (w x m : ℕ) → m < 2 ^ suc w → bit_and x (complement (suc w) m) % 2 ≡ min (x % 2) (1 - m % 2)
clear_lower w x m u =
    let digit = bit_and_digit x (complement (suc w) m) in
    let part = last_complement w m u in ground (arith, digit, part)

clear_and : (w x m : ℕ) → x < 2 ^ w → m < 2 ^ w → bit_and (bit_and x (complement w m)) m ≡ 0
clear_and zero zero m l u = ap (λ c. bit_and c m) (zero_and (complement 0 m)) ∙ zero_and m
clear_and zero (suc x) m l u = absurd (omega arith)
clear_and (suc w) x m l u =
    let rest = clear_and w (x / 2) (m / 2) (half w x l) (half w m u) in
    let upper = ap (λ q. bit_and q (m / 2)) (clear_upper w x m u) in
    let lower = clear_lower w x m u in
    let digit = bit_and_digit (bit_and x (complement (suc w) m)) m in
    ground (arith, upper, lower, digit, rest)

-- Of masks without a common bit, the halves have none, nor have the last digits.
apart_upper : (m n : ℕ) → bit_and m n ≡ 0 → bit_and (m / 2) (n / 2) ≡ 0
apart_upper m n e = omega (arith, bit_and_digit m n)

apart_lower : (m n : ℕ) → bit_and m n ≡ 0 → min (m % 2) (n % 2) ≡ 0
apart_lower m n e = omega (arith, bit_and_digit m n)

or_and_other :
    (w x m n : ℕ) → x < 2 ^ w → m < 2 ^ w → bit_and m n ≡ 0 → bit_and (bit_or x m) n ≡ bit_and x n
or_and_other zero x m n l u e = cc (below_one x l, below_one m u)
or_and_other (suc w) x m n l u e =
    let rest =
      or_and_other w (x / 2) (m / 2) (n / 2) (half w x l) (half w m u) (apart_upper m n e) in
    let apart = apart_lower m n e in
    let whole = bit_or_digit x m in
    let upper : bit_or x m / 2 ≡ bit_or (x / 2) (m / 2) = ground (arith, whole) in
    let half_and = ap (λ q. bit_and q (n / 2)) upper in
    let digit = bit_and_digit (bit_or x m) n in
    let old = bit_and_digit x n in ground (arith, half_and, digit, old, rest, apart, whole)

clear_and_other :
    (w x m n : ℕ)
    → x < 2 ^ w
    → m < 2 ^ w
    → bit_and m n ≡ 0
    → bit_and (bit_and x (complement w m)) n ≡ bit_and x n
clear_and_other zero zero m n l u e = ap (λ c. bit_and c n) (zero_and (complement 0 m))
clear_and_other zero (suc x) m n l u e = absurd (omega arith)
clear_and_other (suc w) x m n l u e =
    let rest =
      clear_and_other w (x / 2) (m / 2) (n / 2) (half w x l) (half w m u) (apart_upper m n e) in
    let apart = apart_lower m n e in
    let upper = ap (λ q. bit_and q (n / 2)) (clear_upper w x m u) in
    let lower = clear_lower w x m u in
    let digit = bit_and_digit (bit_and x (complement (suc w) m)) n in
    let old = bit_and_digit x n in ground (arith, upper, lower, digit, old, rest, apart)

set_bitfield-mask :
    (w x m : ℕ) (value : Bool)
    → x < 2 ^ w
    → m < 2 ^ w
    → m ≢ 0
    → not (bit_and (set_bitfield w m value x) m == 0) ≡ value
unfolding set_bitfield
set_bitfield-mask w x m true l u some_bit = let e = or_and w x m l u in ground (arith, e, some_bit)
set_bitfield-mask w x m false l u some_bit = let e = clear_and w x m l u in ground (arith, e)

set_bitfield-other :
    (w x m n : ℕ) (value : Bool)
    → x < 2 ^ w
    → m < 2 ^ w
    → bit_and m n ≡ 0
    → bit_and (set_bitfield w m value x) n ≡ bit_and x n
unfolding set_bitfield
set_bitfield-other w x m n true l u apart = or_and_other w x m n l u apart
set_bitfield-other w x m n false l u apart = clear_and_other w x m n l u apart

kept :
    (w m n a b : ℕ) (value : Bool) (memory : ℕ → ℕ)
    → memory a < 2 ^ w
    → m < 2 ^ w
    → (b ≢ a) ⊎ (bit_and m n ≡ 0)
    → bit_and (set_bool w m a value memory b) n ≡ bit_and (memory b) n
unfolding set_bool
kept w m n a b value memory l u (inl other) = ground (arith, other)
kept w m n a b value memory l u (inr apart) = elim (Bool-cases (b == a)) [
  | inl e ↦
      let same : b ≡ a = ground arith in
      let written = set_bitfield-other w (memory a) m n value l u apart in
      ap (λ t. bit_and (if t then set_bitfield w m value (memory a) else memory b) n) e
      ∙ written
      ∙ ap (λ a. bit_and (memory a) n) (sym same)
  | inr e ↦ ground (arith, e)
]

-- After a bool is set it reads as that value, and a bool in another bitfield, or under a mask that has
-- no bit in common with its own, reads as before; the mask has a bit, and fits the bitfield's width.
pub get_bool-set_bool :
    (w m n a b : ℕ) (value : Bool) (memory : ℕ → ℕ)
    → memory a < 2 ^ w
    → m < 2 ^ w
    → m ≢ 0
    → (b ≢ a) ⊎ (bit_and m n ≡ 0)
    → (get_bool m a (set_bool w m a value memory) ≡ value)
      × (get_bool n b (set_bool w m a value memory) ≡ get_bool n b memory)
unfolding get_bool set_bool
get_bool-set_bool w m n a b value memory l u some_bit apart =
    let set = set_bitfield-mask w (memory a) m value l u some_bit in
    (ground (arith, set), ap (λ x. not (x == 0)) (kept w m n a b value memory l u apart))
