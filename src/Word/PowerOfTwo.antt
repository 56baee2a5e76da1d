-- ===== src/Word/PowerOfTwo.antt =====
-- LZ_IS_POWER_OF_TWO accepts exactly the powers of two.
use native.Mathlib.Nat.{pow-suc, one-le-pow}
use lzmalloc.Base.{
  ℕ, zero, suc, ◌-◌, ◌/◌, ◌%◌, ◌^◌, ◌≤◌, ◌<◌, bit_and, ◌≡◌, refl, arith, ap, ap₂, sym, ◌∙◌, true,
  ◌==◌, ◌↔◌, Bool-cases, ==_iff, inl, inr,
}
use lzmalloc.Bits.{bit_and_low}
use lzmalloc.Word.{word_mod, sub64, is_power_of_two}

bit_and_self_fuel : (n x : ℕ) → x ≤ n → bit_and x x ≡ x
bit_and_self_fuel n zero h = refl
bit_and_self_fuel zero (suc x) h = absurd (omega arith)
bit_and_self_fuel (suc n) (suc x) h =
    omega (arith, bit_and_low (suc x) (suc x), bit_and_self_fuel n (suc x / 2) (omega arith))

pub bit_and_self : (x : ℕ) → bit_and x x ≡ x
bit_and_self x = bit_and_self_fuel x x (omega arith)

bit_and-pow-pred : (k : ℕ) → bit_and (2 ^ k) (2 ^ k - 1) ≡ 0
bit_and-pow-pred zero = refl
bit_and-pow-pred (suc k) =
    let p = pow-suc 2 k in
    let q = one-le-pow k 2 (omega arith) in
    let whole : 2 ^ suc k / 2 ≡ 2 ^ k = omega (arith, p) in
    let less : (2 ^ suc k - 1) / 2 ≡ 2 ^ k - 1 = omega (arith, p, q) in
    let rest : bit_and (2 ^ suc k / 2) ((2 ^ suc k - 1) / 2) ≡ 0 =
      ap₂ bit_and whole less ∙ bit_and-pow-pred k in
    omega (arith, bit_and_low (2 ^ suc k) (2 ^ suc k - 1), p, q, rest)

-- a number that shares no bit with its predecessor is a power of two
exponent : (n x : ℕ) → x ≤ n → 0 < x → bit_and x (x - 1) ≡ 0 → (k : ℕ) × (x ≡ 2 ^ k)
exponent zero x h pos e = absurd (omega arith)
exponent (suc n) x h pos e = elim (Bool-cases (x % 2 == 0)) [
  | inl even ↦
      let y : x % 2 ≡ 0 = (==_iff _ _).0 even in
      let pred : (x - 1) / 2 ≡ x / 2 - 1 = omega arith in
      let rest : bit_and (x / 2) (x / 2 - 1) ≡ 0 =
        omega (arith, bit_and_low x (x - 1), ap (bit_and (x / 2)) pred) in
      let (k, up) = exponent n (x / 2) (omega arith) (omega arith) rest in
      (suc k, omega (arith, up, pow-suc 2 k))
  | inr odd ↦
      let y : x % 2 ≡ 1 = ground arith in
      let pred : (x - 1) / 2 ≡ x / 2 = omega arith in
      let rest : bit_and (x / 2) ((x - 1) / 2) ≡ x / 2 =
        ap (bit_and (x / 2)) pred ∙ bit_and_self (x / 2) in
      (0, omega (arith, bit_and_low x (x - 1), rest))
]

-- The macro holds of a 64-bit word exactly when the word is a power of two.
pub is_power_of_two_iff :
    (x : ℕ) → x < word_mod → (is_power_of_two x ≡ true) ↔ ((k : ℕ) × (x ≡ 2 ^ k))
unfolding is_power_of_two
is_power_of_two_iff x h = (
  λ e.
      let pos : 0 < x = ground arith in
      let less : sub64 x 1 ≡ x - 1 = omega arith in
      let none : bit_and x (sub64 x 1) ≡ 0 = ground arith in
      exponent x x (omega arith) pos (ap (bit_and x) (sym less) ∙ none),
  λ (k, e).
      let pos : 0 < 2 ^ k = one-le-pow k 2 (omega arith) in
      let less : sub64 x 1 ≡ x - 1 = omega arith in
      let none : bit_and x (sub64 x 1) ≡ 0 =
        ap (bit_and x) less ∙ ap₂ bit_and e (ap (λ t. t - 1) e) ∙ bit_and-pow-pred k in
      ground arith,
)
