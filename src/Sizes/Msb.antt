-- ===== src/Sizes/Msb.antt =====
-- `lz_fls` is the exponent of the highest power of two that is not above its argument.
use native.Mathlib.Nat.{sub-zero, suc-sub-suc}
use lzmalloc.Base.{
  ℕ, zero, suc, ◌-◌, ◌^◌, ◌≤◌, ◌<◌, arith, leb, Bool-cases, inl, inr, leb→le, le→leb, ==_of_ne,
}
use lzmalloc.Word.{word_mod}
use lzmalloc.Sizes.{clz, fls}

pub record IsMsb (x m : ℕ) : Type 0 where
  pub low : 2 ^ m ≤ x
  pub high : x < 2 ^ suc m

clz-IsMsb : (w x : ℕ) → 0 < x → x < 2 ^ suc w → (clz (suc w) x ≤ w) × IsMsb x (w - clz (suc w) x)
unfolding clz
clz-IsMsb zero x pos h = rw (le→leb 1 x pos) (omega arith, record { low = pos; high = h })
clz-IsMsb (suc w) x pos h = elim (Bool-cases (leb (2 ^ suc w) x)) [
  | inl e ↦ rw e (omega arith, rw (sub-zero (suc w)) (record { low = leb→le _ _ e; high = h }))
  | inr e ↦
      let (bound, msb) = clz-IsMsb w x pos (ground arith) in
      rw e (omega (arith, bound), rw suc-sub-suc msb)
]

-- On every nonzero 64-bit word `lz_fls` is at most 63 and is the index of the highest set bit.
pub fls-IsMsb : (x : ℕ) → 0 < x → x < word_mod → (fls x ≤ 63) × IsMsb x (fls x)
unfolding fls
fls-IsMsb x pos h =
    rw (==_of_ne x 0 (omega arith)) (let (b, m) = clz-IsMsb 63 x pos h in (omega arith, m))
