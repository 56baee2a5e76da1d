-- ===== src/Bits/Xor.antt =====
-- Exclusive or: it stays within the width, and applying the same mask twice does nothing.
use native.Mathlib.Nat.{pow-suc}
use lzmalloc.Base.{ℕ, zero, suc, ◌/◌, ◌^◌, ◌<◌, bit_xor, ◌≡◌, arith, sym, ap, ◌∙◌}
use lzmalloc.Bits.{bit-le-one, bit-bit_xor, bit_ext}
use lzmalloc.Bits.Digits.{bit_xor_low}

pub bit_xor-lt : (k a b : ℕ) → a < 2 ^ k → b < 2 ^ k → bit_xor a b < 2 ^ k
bit_xor-lt zero a b ha hb =
    let a0 : a ≡ 0 = omega arith in let b0 : b ≡ 0 = omega arith in rw (a0, b0) (omega arith)
bit_xor-lt (suc k) a b ha hb =
    let p = pow-suc 2 k in
    let half = bit_xor-lt k (a / 2) (b / 2) (omega (arith, p)) (omega (arith, p)) in
    omega (arith, bit_xor_low a b, half, p)

-- `(a ^ m) ^ m` is `a`
pub bit_xor_twice : (k a m : ℕ) → a < 2 ^ k → m < 2 ^ k → bit_xor (bit_xor a m) m ≡ a
bit_xor_twice k a m ha hm =
    bit_ext k (bit_xor (bit_xor a m) m) a (bit_xor-lt k (bit_xor a m) m (bit_xor-lt k a m ha hm) hm)
      ha
      λ i h.
        omega
          (arith, bit-bit_xor i (bit_xor a m) m, bit-bit_xor i a m, bit-le-one a i, bit-le-one m i)

-- a mask loses nothing
pub bit_xor_cancel :
    (k a b m : ℕ) → a < 2 ^ k → b < 2 ^ k → m < 2 ^ k → bit_xor a m ≡ bit_xor b m → a ≡ b
bit_xor_cancel k a b m ha hb hm e =
    sym (bit_xor_twice k a m ha hm) ∙ ap (λ t. bit_xor t m) e ∙ bit_xor_twice k b m hb hm

pub bit_xor_comm : (k a b : ℕ) → a < 2 ^ k → b < 2 ^ k → bit_xor a b ≡ bit_xor b a
bit_xor_comm k a b ha hb =
    bit_ext k (bit_xor a b) (bit_xor b a) (bit_xor-lt k a b ha hb) (bit_xor-lt k b a hb ha)
      λ i h. omega (arith, bit-bit_xor i a b, bit-bit_xor i b a)

-- two masks, applied twice in the same order
pub bit_xor_twice_two :
    (k p m n : ℕ)
    → p < 2 ^ k
    → m < 2 ^ k
    → n < 2 ^ k
    → bit_xor (bit_xor (bit_xor (bit_xor p m) n) m) n ≡ p
bit_xor_twice_two k p m n hp hm hn =
    let u = bit_xor (bit_xor p m) n in
    let hu = bit_xor-lt k (bit_xor p m) n (bit_xor-lt k p m hp hm) hn in
    bit_ext k (bit_xor (bit_xor u m) n) p (bit_xor-lt k (bit_xor u m) n (bit_xor-lt k u m hu hm) hn)
      hp
      λ i h. omega (
        arith,
        bit-bit_xor i (bit_xor u m) n,
        bit-bit_xor i u m,
        bit-bit_xor i (bit_xor p m) n,
        bit-bit_xor i p m,
        bit-le-one p i,
        bit-le-one m i,
        bit-le-one n i,
      )
