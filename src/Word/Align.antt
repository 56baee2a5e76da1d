-- ===== src/Word/Align.antt =====
-- LZ_ALIGN_UP and LZ_ALIGN_DOWN as arithmetic: rounding to a multiple of a power of two.
use native.Mathlib.Nat.{
  pow-suc, one-le-pow, div-div-eq-div-mul, pow-le-pow_right, mul_comm, mul-mod_left, mod-lt,
  div-add-mod',
}
use lzmalloc.Base.{
  ℕ, zero, suc, ◌+◌, ◌-◌, ◌*◌, ◌/◌, ◌%◌, ◌^◌, ◌≤◌, ◌<◌, bit_and, ◌≡◌, refl, arith, ap, sym, ◌∙◌,
}
use lzmalloc.Bits.{bit_and_low}
use lzmalloc.Word.{word_mod, add64, sub64, not64, align_up, align_down}

-- `x & ~0`
bit_and_ones : (w x : ℕ) → x < 2 ^ w → bit_and x (2 ^ w - 1) ≡ x
bit_and_ones zero zero h = refl
bit_and_ones zero (suc x) h = absurd (omega arith)
bit_and_ones (suc w) x h =
    let p = pow-suc 2 w in
    let q = one-le-pow w 2 (omega arith) in
    let rest : bit_and (x / 2) ((2 ^ suc w - 1) / 2) ≡ x / 2 =
      ap (bit_and (x / 2)) (omega (arith, p, q)) ∙ bit_and_ones w (x / 2) (omega (arith, p)) in
    omega (arith, bit_and_low x (2 ^ suc w - 1), p, q, rest)

-- a mask that clears the lowest `k` of `w` bits
pub bit_and_high : (k w x : ℕ) → k ≤ w → x < 2 ^ w → bit_and x (2 ^ w - 2 ^ k) ≡ x / 2 ^ k * 2 ^ k
bit_and_high zero w x h hx = bit_and_ones w x hx ∙ omega arith
bit_and_high (suc k) zero x h hx = absurd (omega arith)
bit_and_high (suc k) (suc w) x h hx =
    let p = pow-suc 2 k in
    let q = pow-suc 2 w in
    let r : 2 ^ k ≤ 2 ^ w = pow-le-pow_right (omega arith) (omega arith) in
    let half : (2 ^ suc w - 2 ^ suc k) / 2 ≡ 2 ^ w - 2 ^ k = omega (arith, p, q, r) in
    let quot : x / 2 ^ suc k ≡ x / 2 / 2 ^ k =
      ap (λ t. x / t) (p ∙ mul_comm (2 ^ k) 2) ∙ sym (div-div-eq-div-mul x 2 (2 ^ k)) in
    let rest : bit_and (x / 2) ((2 ^ suc w - 2 ^ suc k) / 2) ≡ x / 2 / 2 ^ k * 2 ^ k =
      ap (bit_and (x / 2)) half ∙ bit_and_high k w (x / 2) (omega arith) (omega (arith, q)) in
    rw (quot) (
      omega (
        arith,
        bit_and_low x (2 ^ suc w - 2 ^ suc k),
        p,
        q,
        r,
        rest,
        ap (λ (t : ℕ). x / 2 / 2 ^ k * t) p,
      ))

-- the mask `~(align - 1)` of both macros
mask-pow :
    (k x : ℕ) → k < 64 → x < word_mod → bit_and x (not64 (sub64 (2 ^ k) 1)) ≡ x / 2 ^ k * 2 ^ k
mask-pow k x h hx = ap (bit_and x) mask ∙ bit_and_high k 64 x (omega arith) hx
  where
    mask : not64 (sub64 (2 ^ k) 1) ≡ 2 ^ 64 - 2 ^ k
    mask = omega (arith, one-le-pow k 2 (omega arith), pow-le-pow_right {n = 2} (omega arith) h)

-- Rounding down to a multiple of `2 ^ k`.
pub align_down-pow : (k x : ℕ) → k < 64 → x < word_mod → align_down x (2 ^ k) ≡ x / 2 ^ k * 2 ^ k
unfolding align_down
align_down-pow k x h hx = mask-pow k x h hx

-- Rounding up to a multiple of 16 past the end of the words gives 0.
pub align_up_wraps : (x : ℕ) → word_mod - 16 < x → x < word_mod → align_up x 16 ≡ 0
unfolding align_up
align_up_wraps x wide hx =
    mask-pow 4 (add64 x 15) (omega arith) (omega arith) ∙ omega (arith, wide, hx)

-- Rounding up to a multiple of `2 ^ k`, where the sum does not wrap.
pub align_up-pow :
    (k x : ℕ)
    → k < 64
    → x + (2 ^ k - 1) < word_mod
    → align_up x (2 ^ k) ≡ (x + (2 ^ k - 1)) / 2 ^ k * 2 ^ k
unfolding align_up
align_up-pow k x h hx =
    ap (λ t. bit_and t (not64 (sub64 (2 ^ k) 1))) sum ∙ mask-pow k (x + (2 ^ k - 1)) h hx
  where
    sum : add64 x (sub64 (2 ^ k) 1) ≡ x + (2 ^ k - 1)
    sum = omega (arith, one-le-pow k 2 (omega arith), pow-le-pow_right {n = 2} (omega arith) h)

-- The result of LZ_ALIGN_UP is the least multiple of `2 ^ k` that is not below the size: it is a
-- multiple, it covers the size, and it is less than one unit above it.
pub align_up_least :
    (k x : ℕ)
    → k < 64
    → x + (2 ^ k - 1) < word_mod
    → (align_up x (2 ^ k) % 2 ^ k ≡ 0) × (x ≤ align_up x (2 ^ k)) × (align_up x (2 ^ k) < x + 2 ^ k)
align_up_least k x h hx =
    let pos = one-le-pow k 2 (omega arith) in
    let n = x + (2 ^ k - 1) in
    let split = div-add-mod' n (2 ^ k) in
    let small = mod-lt n {m = 2 ^ k} pos in
    rw (align_up-pow k x h hx)
      (mul-mod_left (n / 2 ^ k) (2 ^ k), omega (arith, split, small, pos), omega (arith, split))
