-- ===== src/Sizes/Form.antt =====
-- The two conversions in closed form: what they compute on each of the two scales.
use native.Mathlib.Nat.{
  pow-suc, pow-le-pow_right, le-div_iff_mul-le, div-lt_iff_lt-mul, mul-le-mul, one-le-pow,
  div-mul-le_self, lt-div-mul-add, mod-eq_of_lt,
}
use lzmalloc.Base.{
  ℕ, suc, ◌+◌, ◌-◌, ◌*◌, ◌/◌, ◌%◌, ◌^◌, ◌≤◌, ◌<◌, ◌≡◌, arith, ap, ◌∙◌, bit_and, leb, Bool-cases,
  inl, inr, leb→le, le→ltb, lt→leb,
}
use lzmalloc.Bits.{bit_and_mask}
use lzmalloc.Sizes.{fls, size_to_class, class_to_size}
use lzmalloc.Sizes.Msb.{IsMsb, fls-IsMsb}
use lzmalloc.Word.{sub64, sub32, u32}

-- the largest size that has a class
abbrev pub max_class_size : ℕ
max_class_size = 2 ^ 27

pub size_to_class_linear : (s : ℕ) → s < 128 → size_to_class (suc s) ≡ s / 16
unfolding size_to_class
size_to_class_linear s h = ground arith

pub class_to_size_linear : (c : ℕ) → c < 8 → class_to_size c ≡ (c + 1) * 16
unfolding class_to_size
class_to_size_linear c h = ground arith

-- Where `q` quarters of the power `2 ^ (n + 2)` are reached: `s` lies in `[q * 2 ^ n, (q + 1) * 2 ^ n)`.
pub record IsStep (s n q : ℕ) : Type 0 where
  pub n_low : 5 ≤ n
  pub n_high : n ≤ 24
  pub q_low : 4 ≤ q
  pub q_high : q < 8
  pub low : q * 2 ^ n ≤ s
  pub high : s < (q + 1) * 2 ^ n

msb_range : (s m : ℕ) → IsMsb s m → 128 ≤ s → s < max_class_size → (7 ≤ m) × (m ≤ 26)
msb_range s m h lo hi = (above, below)
  where
    above : 7 ≤ m
    above = elim (Bool-cases (leb 7 m)) [
      | inl e ↦ leb→le _ _ e
      | inr e ↦
          let small : suc m ≤ 7 = ground arith in
          absurd (omega (arith, h, pow-le-pow_right {n = 2} (omega arith) small))
    ]

    below : m ≤ 26
    below = elim (Bool-cases (leb m 26)) [
      | inl e ↦ leb→le _ _ e
      | inr e ↦
          let large : 27 ≤ m = ground arith in
          absurd (omega (arith, h, pow-le-pow_right {n = 2} (omega arith) large))
    ]

pub size_to_class_log :
    (s : ℕ)
    → 128 ≤ s
    → s < max_class_size
    → (n q : ℕ) × IsStep s n q × (size_to_class (suc s) ≡ 4 * n + q - 16)
unfolding size_to_class
size_to_class_log s lo hi =
    let m = fls s in
    let (bound, msb) = fls-IsMsb s (omega arith) (omega arith) in
    let (m_low, m_high) = msb_range s m msb lo hi in
    let n = m - 2 in
    let q = s / 2 ^ n in
    let four : 2 ^ m ≡ 2 ^ n * 4 =
      ap (λ t. 2 ^ t) (omega arith) ∙ pow-suc 2 (suc n) ∙ omega (arith, pow-suc 2 n) in
    let eight : 2 ^ suc m ≡ 2 ^ n * 8 = omega (arith, pow-suc 2 m, four) in
    let pos = one-le-pow n 2 (omega arith) in
    let q_low : 4 ≤ q = (le-div_iff_mul-le {k = 2 ^ n} pos).1 (omega (arith, msb, four)) in
    let q_high : q < 8 = (div-lt_iff_lt-mul {k = 2 ^ n} pos).1 (omega (arith, msb, eight)) in
    let prev : sub64 (suc s) 1 ≡ s = omega arith in
    let shift : sub32 m 2 ≡ n = omega arith in
    let offset : bit_and q 3 ≡ q % 4 = bit_and_mask 2 q in
    (
      n,
      q,
      record {
        n_low = omega arith;
        n_high = omega arith;
        q_low = q_low;
        q_high = q_high;
        low = div-mul-le_self s (2 ^ n);
        high = omega (arith, lt-div-mul-add {a = s} {b = 2 ^ n} pos);
      },
      rw (lt→leb (suc s) 16 (omega arith), prev, le→ltb s 128 (omega arith), shift, offset)
          (omega arith),
    )

pub class_to_size_log :
    (n q : ℕ) → 5 ≤ n → n ≤ 24 → 4 ≤ q → q < 8 → class_to_size (4 * n + q - 16) ≡ (q + 1) * 2 ^ n
unfolding class_to_size
class_to_size_log n q h1 h2 h3 h4 =
    let idx : sub32 (4 * n + q - 16) 8 ≡ 4 * n + q - 24 = omega arith in
    let group : u32 ((4 * n + q - 24) / 4 + 5) ≡ n = omega arith in
    let offset : bit_and (4 * n + q - 24) 3 ≡ q - 4 =
      bit_and_mask 2 (4 * n + q - 24) ∙ omega arith in
    let quarters : u32 (5 + (q - 4)) ≡ q + 1 = omega arith in
    let fits : (q + 1) * 2 ^ n ≤ 8 * 2 ^ 24 =
      mul-le-mul {n₁ = q + 1} {n₂ = 8} (omega arith) (pow-le-pow_right {n = 2} (omega arith) h2) in
    rw (le→ltb (4 * n + q - 16) 8 (omega arith), idx, group, offset, quarters)
      (mod-eq_of_lt (omega (arith, fits)))
