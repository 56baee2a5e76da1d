-- ===== src/Bits/Digits.antt =====
-- The native `&`, `|` and `^` by their lowest digit. The native operations recur on digits with
-- the first number as fuel; here the fuel is dropped.
use Prim.Native.Nat.{digits, differ, bit_and-bitwise, bit_or-bitwise, bit_xor-bitwise}
use lzmalloc.Base.{
  ℕ, zero, suc, ◌+◌, ◌*◌, ◌/◌, ◌%◌, ◌-◌, ◌≤◌, ◌<◌, min, max, bit_and, bit_or, bit_xor, ◌≡◌, refl,
  arith, ap, ◌∙◌,
}

module _ (z : ℕ → ℕ) (f : ℕ → ℕ → ℕ) where
  -- one unit of fuel more than the number makes no difference
  more_fuel : (n a b : ℕ) → a ≤ n → digits z f (suc n) a b ≡ digits z f n a b
  more_fuel n zero b h = zero_fuel n
    where
      zero_fuel : (k : ℕ) → digits z f (suc k) zero b ≡ digits z f k zero b
      zero_fuel zero = refl
      zero_fuel (suc k) = refl
  more_fuel zero (suc a) b h = absurd (omega arith)
  more_fuel (suc n) (suc a) b h =
      ap (λ t. t * 2 + f (suc a % 2) (b % 2)) (more_fuel n (suc a / 2) (b / 2) (omega arith))

  exact_fuel : (n k a b : ℕ) → n ≡ k + a → digits z f n a b ≡ digits z f a a b
  exact_fuel n zero a b e = ap (λ t. digits z f t a b) (omega arith)
  exact_fuel zero (suc k) a b e = absurd (omega arith)
  exact_fuel (suc n) (suc k) a b e =
      more_fuel n a b (omega arith) ∙ exact_fuel n k a b (omega arith)

  low_digit :
      (a b : ℕ)
      → digits z f (suc a) (suc a) b
        ≡ digits z f (suc a / 2) (suc a / 2) (b / 2) * 2 + f (suc a % 2) (b % 2)
  low_digit a b =
      ap (λ t. t * 2 + f (suc a % 2) (b % 2))
        (exact_fuel a (a - suc a / 2) (suc a / 2) (b / 2) (omega arith))

pub bit_and_low : (a b : ℕ) → bit_and a b ≡ bit_and (a / 2) (b / 2) * 2 + min (a % 2) (b % 2)
bit_and_low zero b = omega (arith, bit_and-bitwise 0 b, bit_and-bitwise 0 (b / 2))
bit_and_low (suc a) b = omega (
  arith,
  bit_and-bitwise (suc a) b,
  bit_and-bitwise (suc a / 2) (b / 2),
  low_digit (λ _. 0) min a b,
)

pub bit_or_low : (a b : ℕ) → bit_or a b ≡ bit_or (a / 2) (b / 2) * 2 + max (a % 2) (b % 2)
bit_or_low zero b = omega (arith, bit_or-bitwise 0 b, bit_or-bitwise 0 (b / 2))
bit_or_low (suc a) b = omega (
  arith,
  bit_or-bitwise (suc a) b,
  bit_or-bitwise (suc a / 2) (b / 2),
  low_digit (λ y. y) max a b,
)

differ_digit : (x y : ℕ) → x < 2 → y < 2 → differ x y ≡ (x + y) % 2
differ_digit zero y h k = omega arith
differ_digit (suc zero) zero h k = refl
differ_digit (suc zero) (suc zero) h k = refl
differ_digit (suc zero) (suc (suc y)) h k = absurd (omega arith)
differ_digit (suc (suc x)) y h k = absurd (omega arith)

pub bit_xor_low : (a b : ℕ) → bit_xor a b ≡ bit_xor (a / 2) (b / 2) * 2 + (a % 2 + b % 2) % 2
bit_xor_low zero b = omega (arith, bit_xor-bitwise 0 b, bit_xor-bitwise 0 (b / 2))
bit_xor_low (suc a) b = omega (
  arith,
  bit_xor-bitwise (suc a) b,
  bit_xor-bitwise (suc a / 2) (b / 2),
  low_digit (λ y. y) differ a b,
  differ_digit (suc a % 2) (b % 2) (omega arith) (omega arith),
)
