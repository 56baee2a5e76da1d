-- ===== src/Span/Bitmap.antt =====
-- The bitmap of a span as a map from pages to bits.
use native.Mathlib.Nat.{one-mul, pow-suc, one-le-pow, pow-le-pow_right}
use lzmalloc.Base.{
  ℕ, zero, suc, ◌+◌, ◌*◌, ◌/◌, ◌%◌, ◌^◌, ◌<◌, bit_and, bit_or, ◌≡◌, ◌↔◌, inl, inr, arith, Bool,
  true, ◌&&◌, ◌==◌, ==_iff, ltb, leb, if◌then◌else◌, Bool-cases,
}
use lzmalloc.Bits.{bit, bit-le-one, bit-bit_and, bit-bit_or, bit-pow, bit_complement, bit_and-pow}
use lzmalloc.Span.{Bitmap, mark_used, mark_free, mark_all_used, mark_all_free}
use lzmalloc.Word.{not64}

-- 1 if page `p` is free
abbrev pub page_bit : Bitmap → ℕ → ℕ
page_bit bm p = bit (bm (p / 64)) (p % 64)

-- the test of the search
pub test_bit_iff : (word b : ℕ) → ((bit_and word (1 * 2 ^ b) == 0) ≡ true) ↔ (bit word b ≡ 0)
test_bit_iff word b =
    rw (one-mul (2 ^ b)) (
      λ e. (bit_and-pow word b).0 ((==_iff _ 0).0 e),
      λ e. (==_iff _ 0).1 ((bit_and-pow word b).1 e),
    )

-- `word & ~(1 << k)` and `word | (1 << k)`, bit by bit
clear_bit :
    (word k i : ℕ)
    → k < 64
    → i < 64
    → bit (bit_and word (not64 (1 * 2 ^ k))) i ≡ (if k == i then 0 else bit word i)
clear_bit word k i hk hi = rw (one-mul (2 ^ k)) (
    ground (
      arith,
      bit-bit_and i word (not64 (2 ^ k)),
      bit_complement 64 i (2 ^ k) hi small,
      bit-pow k i,
      bit-le-one word i,
    ))
  where
    small : 2 ^ k < 2 ^ 64
    small = omega (
      arith,
      pow-le-pow_right {n = 2} (omega arith) hk,
      pow-suc 2 k,
      one-le-pow k 2 (omega arith),
    )

set_bit : (word k i : ℕ) → bit (bit_or word (1 * 2 ^ k)) i ≡ (if k == i then 1 else bit word i)
set_bit word k i =
    rw (one-mul (2 ^ k)) (ground (arith, bit-bit_or i word (2 ^ k), bit-pow k i, bit-le-one word i))

-- marking a page changes the bit of that page alone
page_bit-mark_used :
    (j p : ℕ) (bm : Bitmap) → page_bit (mark_used j bm) p ≡ (if j == p then 0 else page_bit bm p)
unfolding mark_used
page_bit-mark_used j p bm = elim (Bool-cases (j / 64 == p / 64)) [
  | inl e ↦
      rw e
        (ground (arith, clear_bit (bm (j / 64)) (j % 64) (p % 64), (==_iff (j / 64) (p / 64)).0 e))
  | inr e ↦ rw e (ground arith)
]

page_bit-mark_free :
    (j p : ℕ) (bm : Bitmap) → page_bit (mark_free j bm) p ≡ (if j == p then 1 else page_bit bm p)
unfolding mark_free
page_bit-mark_free j p bm = elim (Bool-cases (j / 64 == p / 64)) [
  | inl e ↦
      rw e (ground (arith, set_bit (bm (j / 64)) (j % 64) (p % 64), (==_iff (j / 64) (p / 64)).0 e))
  | inr e ↦ rw e (ground arith)
]

-- `p` is one of the `n` pages from `j`
abbrev pub in_run : ℕ → ℕ → ℕ → Bool
in_run j n p = leb j p && ltb p (j + n)

-- The marking loops change the bits of exactly the pages that they are given.
pub page_bit-mark_all_used :
    (n j p : ℕ) (bm : Bitmap)
    → page_bit (mark_all_used n j bm) p ≡ (if in_run j n p then 0 else page_bit bm p)
unfolding mark_all_used
page_bit-mark_all_used zero j p bm = ground arith
page_bit-mark_all_used (suc n) j p bm =
    ground (arith, page_bit-mark_all_used n (j + 1) p (mark_used j bm), page_bit-mark_used j p bm)

pub page_bit-mark_all_free :
    (n j p : ℕ) (bm : Bitmap)
    → page_bit (mark_all_free n j bm) p ≡ (if in_run j n p then 1 else page_bit bm p)
unfolding mark_all_free
page_bit-mark_all_free zero j p bm = ground arith
page_bit-mark_all_free (suc n) j p bm =
    ground (arith, page_bit-mark_all_free n (j + 1) p (mark_free j bm), page_bit-mark_free j p bm)
