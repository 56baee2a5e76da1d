-- ===== src/Malloc/Api.antt =====
-- The interface where no alignment is asked for.
use native.Mathlib.Nat.{div-lt_iff_lt-mul, mul_comm}
use lzmalloc.Base.{
  ap, ℕ, ◌*◌, ◌-◌, ◌/◌, ◌<◌, ◌≡◌, refl, arith, some, ◌==◌, ◌||◌, leb, ltb, if◌then◌else◌, inl, inr,
  Bool-cases,
}
use lzmalloc.Malloc.{malloc, calloc}
use lzmalloc.Thread.{Process}
use lzmalloc.Word.{word_mod}

-- the division that `lz_calloc` tests with, against the product
quotient_test :
    (num size : ℕ) → 0 < num → ltb ((word_mod - 1) / num) size ≡ leb word_mod (num * size)
quotient_test num size pos =
    let (below, from) = div-lt_iff_lt-mul {k = num} {x = word_mod - 1} {y = size} pos in
    ground (arith, mul_comm num size, below, from)

-- `lz_calloc` fails exactly when the product of its arguments does not fit in 64 bits, and allocates
-- the product otherwise; an empty request is one of 1 byte.
pub calloc-product :
    (fuel num size : ℕ) (p : Process)
    → calloc fuel num size p ≡ (
        if num == 0 || size == 0
        then malloc fuel 1 p
        else if leb word_mod (num * size)
        then some (0, p)
        else malloc fuel (num * size) p)
unfolding calloc
calloc-product fuel num size p = elim (Bool-cases (num == 0 || size == 0)) [
  | inl e ↦ rw e refl
  | inr e ↦
      rw (e, quotient_test num size (ground (arith, e)))
        (elim (Bool-cases (leb word_mod (num * size))) [
          | inl wide ↦ rw wide refl
          | inr fits ↦ rw fits (ap (λ n. malloc fuel n p) (ground arith))
        ])
]
