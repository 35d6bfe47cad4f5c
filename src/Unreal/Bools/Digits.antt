-- ===== src/Unreal/Bools/Digits.antt =====
-- The bitwise operations on masks, one binary digit at a time.
use Prim.Native.Nat.{min, max, digits, bitwise, bit_and, bit_or, bit_and-bitwise, bit_or-bitwise}
use unrealsdk.Base.{ℕ, zero, suc, ◌+◌, ◌*◌, ◌/◌, ◌%◌, ◌≤◌, ◌≡◌, refl, ap, arith}

-- Any number of rounds that is at least the first number gives the same digits.
rounds :
    (z : ℕ → ℕ) (f : ℕ → ℕ → ℕ) (k l x y : ℕ) → x ≤ k → x ≤ l → digits z f k x y ≡ digits z f l x y
rounds z f zero zero x y u v = refl
rounds z f k l zero y u v = no_digits k l
  where
    no_digits : (k l : ℕ) → digits z f k 0 y ≡ digits z f l 0 y
    no_digits zero zero = refl
    no_digits zero (suc l) = refl
    no_digits (suc k) zero = refl
    no_digits (suc k) (suc l) = refl
rounds z f zero (suc l) (suc x) y u v = absurd (omega arith)
rounds z f (suc k) zero (suc x) y u v = absurd (omega arith)
rounds z f (suc k) (suc l) (suc x) y u v =
    ap (λ d. d * 2 + f (suc x % 2) (y % 2))
      (rounds z f k l (suc x / 2) (y / 2) (omega arith) (omega arith))

first_digit :
    (z : ℕ → ℕ) (f : ℕ → ℕ → ℕ) (x y : ℕ)
    → bitwise z f (suc x) y ≡ bitwise z f (suc x / 2) (y / 2) * 2 + f (suc x % 2) (y % 2)
first_digit z f x y =
    ap (λ d. d * 2 + f (suc x % 2) (y % 2))
      (rounds z f x (suc x / 2) (suc x / 2) (y / 2) (omega arith) (omega arith))

pub bit_and_digit : (x y : ℕ) → bit_and x y ≡ bit_and (x / 2) (y / 2) * 2 + min (x % 2) (y % 2)
bit_and_digit zero y = simp bit_and-bitwise (omega arith)
bit_and_digit (suc x) y = simp bit_and-bitwise (first_digit (λ d. 0) min x y)

pub bit_or_digit : (x y : ℕ) → bit_or x y ≡ bit_or (x / 2) (y / 2) * 2 + max (x % 2) (y % 2)
bit_or_digit zero y = simp bit_or-bitwise (omega arith)
bit_or_digit (suc x) y = simp bit_or-bitwise (first_digit (λ d. d) max x y)
