-- ===== src/Bits.antt =====
-- Words as sequences of bits: `&`, `|`, `^` and `~` of C act on each bit, and two words with the
-- same bits are equal.
mod Digits
pub mod Xor
pub use Digits.{bit_and_low}
use Digits.{bit_and_low, bit_or_low, bit_xor_low}
use native.Mathlib.Nat.{pow-suc, one-le-pow, div-div-eq-div-mul, div-add-mod', mul_comm}
use lzmalloc.Base.{
  ℕ, zero, suc, ◌+◌, ◌-◌, ◌*◌, ◌/◌, ◌%◌, ◌^◌, ◌≤◌, ◌<◌, min, max, bit_and, bit_or, bit_xor, ◌≡◌,
  ◌↔◌, refl, arith, sym, ◌∙◌, ap, Bool, true, false, ◌==◌, if◌then◌else◌,
}

-- bit `i` of `x`
abbrev pub bit : ℕ → ℕ → ℕ
bit x zero = x % 2
bit x (suc i) = bit (x / 2) i

pub bit-le-one : (x i : ℕ) → bit x i ≤ 1
bit-le-one x zero = omega arith
bit-le-one x (suc i) = bit-le-one (x / 2) i

pub bit_zero : (i : ℕ) → bit 0 i ≡ 0
bit_zero zero = refl
bit_zero (suc i) = bit_zero i

pub bit-bit_and : (i a b : ℕ) → bit (bit_and a b) i ≡ min (bit a i) (bit b i)
bit-bit_and zero a b = omega (arith, bit_and_low a b)
bit-bit_and (suc i) a b =
    ap (λ t. bit t i) (omega (arith, bit_and_low a b)) ∙ bit-bit_and i (a / 2) (b / 2)

pub bit-bit_or : (i a b : ℕ) → bit (bit_or a b) i ≡ max (bit a i) (bit b i)
bit-bit_or zero a b = omega (arith, bit_or_low a b)
bit-bit_or (suc i) a b =
    ap (λ t. bit t i) (omega (arith, bit_or_low a b)) ∙ bit-bit_or i (a / 2) (b / 2)

-- the bits of `x ^ y` are the sums of the bits, without carry
pub bit-bit_xor : (i a b : ℕ) → bit (bit_xor a b) i ≡ (bit a i + bit b i) % 2
bit-bit_xor zero a b = omega (arith, bit_xor_low a b)
bit-bit_xor (suc i) a b =
    ap (λ t. bit t i) (omega (arith, bit_xor_low a b)) ∙ bit-bit_xor i (a / 2) (b / 2)

pub bit_ext : (k a b : ℕ) → a < 2 ^ k → b < 2 ^ k → ((i : ℕ) → i < k → bit a i ≡ bit b i) → a ≡ b
bit_ext zero a b ha hb same = omega arith
bit_ext (suc k) a b ha hb same =
    let p = pow-suc 2 k in
    let low : a % 2 ≡ b % 2 = same 0 (omega arith) in
    let high : a / 2 ≡ b / 2 =
      bit_ext k (a / 2) (b / 2) (omega (arith, p)) (omega (arith, p))
        (λ i h. same (suc i) (omega arith)) in
    omega arith

pub bit_high : (k x i : ℕ) → x < 2 ^ k → k ≤ i → bit x i ≡ 0
bit_high zero x i hx h = ap (λ t. bit t i) (omega arith) ∙ bit_zero i
bit_high (suc k) x zero hx h = absurd (omega arith)
bit_high (suc k) x (suc i) hx h = bit_high k (x / 2) i (omega (arith, pow-suc 2 k)) (omega arith)

pub bit-pow : (k i : ℕ) → bit (2 ^ k) i ≡ (if k == i then 1 else 0)
bit-pow zero zero = refl
bit-pow zero (suc i) = ground (arith, bit_zero i)
bit-pow (suc k) zero = ground (arith, pow-suc 2 k)
bit-pow (suc k) (suc i) =
    let half : 2 ^ suc k / 2 ≡ 2 ^ k = omega (arith, pow-suc 2 k) in
    rw half (ground (arith, bit-pow k i))

-- `~x` in `k` bits
pub bit_complement : (k i x : ℕ) → i < k → x < 2 ^ k → bit (2 ^ k - 1 - x) i ≡ 1 - bit x i
bit_complement zero i x h hx = absurd (omega arith)
bit_complement (suc k) zero x h hx = omega (arith, pow-suc 2 k, one-le-pow k 2 (omega arith))
bit_complement (suc k) (suc i) x h hx =
    let p = pow-suc 2 k in
    ap (λ t. bit t i) (omega (arith, p))
    ∙ bit_complement k i (x / 2) (omega arith) (omega (arith, p))

bit_and-zero_fuel : (n x : ℕ) → x ≤ n → bit_and x 0 ≡ 0
bit_and-zero_fuel n zero h = refl
bit_and-zero_fuel zero (suc x) h = absurd (omega arith)
bit_and-zero_fuel (suc n) (suc x) h =
    omega (arith, bit_and_low (suc x) 0, bit_and-zero_fuel n (suc x / 2) (omega arith))

pub bit_and-zero : (x : ℕ) → bit_and x 0 ≡ 0
bit_and-zero x = bit_and-zero_fuel x x (omega arith)

mod-two-mul : (x p : ℕ) → 0 < p → x % (p * 2) ≡ x / 2 % p * 2 + x % 2
mod-two-mul x p pos =
    let quot : x / (p * 2) ≡ x / 2 / p =
      ap (λ t. x / t) (mul_comm p 2) ∙ sym (div-div-eq-div-mul x 2 p) in
    omega (
      arith,
      div-add-mod' x (p * 2),
      div-add-mod' (x / 2) p,
      ap (λ (t : ℕ). t * (p * 2)) quot,
      ap (λ (t : ℕ). t * p) quot,
    )

-- `x & (2 ^ k - 1)` is a remainder
pub bit_and_mask : (k x : ℕ) → bit_and x (2 ^ k - 1) ≡ x % 2 ^ k
bit_and_mask zero x = bit_and-zero x ∙ omega arith
bit_and_mask (suc k) x =
    let p = pow-suc 2 k in
    let q = one-le-pow k 2 (omega arith) in
    let half : (2 ^ suc k - 1) / 2 ≡ 2 ^ k - 1 = omega (arith, p, q) in
    let rest : bit_and (x / 2) ((2 ^ suc k - 1) / 2) ≡ x / 2 % 2 ^ k =
      ap (bit_and (x / 2)) half ∙ bit_and_mask k (x / 2) in
    let split : x % 2 ^ suc k ≡ x / 2 % 2 ^ k * 2 + x % 2 =
      ap (λ t. x % t) p ∙ mod-two-mul x (2 ^ k) q in
    omega (arith, bit_and_low x (2 ^ suc k - 1), p, q, rest, split)

pub bit_and-lt : (k a b : ℕ) → b < 2 ^ k → bit_and a b < 2 ^ k
bit_and-lt zero a b h = let z : b ≡ 0 = omega arith in rw (z, bit_and-zero a) (omega arith)
bit_and-lt (suc k) a b h =
    let p = pow-suc 2 k in
    omega (arith, bit_and_low a b, bit_and-lt k (a / 2) (b / 2) (omega (arith, p)), p)

-- `x & (1 << k)` is zero exactly when bit `k` is
pub bit_and-pow : (x k : ℕ) → (bit_and x (2 ^ k) ≡ 0) ↔ (bit x k ≡ 0)
bit_and-pow x k = (
  λ e. ground (
    arith,
    bit-bit_and k x (2 ^ k),
    ap (λ t. bit t k) e,
    bit_zero k,
    bit-pow k k,
    bit-le-one x k,
  ),
  λ e.
      bit_ext (suc k) (bit_and x (2 ^ k)) 0
        (bit_and-lt (suc k) x (2 ^ k) (omega (arith, pow-suc 2 k, one-le-pow k 2)))
        (one-le-pow (suc k) 2 (omega arith))
        λ i h. ground (arith, bit-bit_and i x (2 ^ k), bit-pow k i, bit_zero i),
)
