-- ===== src/Malloc/Aligned.antt =====
-- The interface where an alignment is asked for: errors, and the alignment of direct mappings.
use lzmalloc.Base.{
  ℕ, ◌+◌, ◌%◌, ◌^◌, ◌≤◌, ◌<◌, ◌≡◌, ◌≢◌, refl, arith, none, some, false, ◌==◌, inl, inr, Bool-cases,
}
use lzmalloc.Config.{huge_page_size}
use lzmalloc.Huge.{sys_alloc_huge_aligned, trim_huge}
use lzmalloc.Malloc.{posix_memalign, memalign, aligned_alloc, einval}
use lzmalloc.Os.{Os, next_mmap}
use lzmalloc.Thread.{Process}
use lzmalloc.Word.{word_mod, is_power_of_two}
use lzmalloc.Bits.{bit_and_mask}
use lzmalloc.Vmm.Cache.{round_up}
use lzmalloc.Word.Align.{align_up-pow}
use lzmalloc.Word.PowerOfTwo.{is_power_of_two_iff}

-- On an alignment that is no power of two, `lz_posix_memalign` returns EINVAL and stores nothing,
-- `lz_memalign` and `lz_aligned_alloc` return NULL, and nothing is changed.
pub alignment_rejected :
    (fuel memptr alignment size : ℕ) (p : Process)
    → alignment < word_mod
    → ((k : ℕ) → alignment ≢ 2 ^ k)
    → (posix_memalign fuel memptr alignment size p ≡ some (einval, none, p))
      × (memalign fuel alignment size p ≡ some (0, p))
      × (aligned_alloc fuel alignment size p ≡ some (0, p))
unfolding posix_memalign memalign aligned_alloc
alignment_rejected fuel memptr alignment size p small h = (
  elim (Bool-cases (memptr == 0)) [
    | inl e ↦ rw e refl
    | inr e ↦ elim (Bool-cases (alignment % 8 == 0)) [
      | inl f ↦ rw (e, f, not_power) refl
      | inr f ↦ rw (e, f) refl
    ]
  ],
  elim (Bool-cases (alignment == 0)) [ inl e ↦ rw e refl | inr e ↦ rw (e, not_power) refl ],
  elim (Bool-cases (alignment == 0)) [ inl e ↦ rw e refl | inr e ↦ rw (e, not_power) refl ],
)
  where
    not_power : is_power_of_two alignment ≡ false
    not_power = elim (Bool-cases (is_power_of_two alignment)) [
      | inl e ↦ let (k, eq) = (is_power_of_two_iff alignment small).0 e in absurd (h k eq)
      | inr e ↦ e
    ]

trim_huge_base :
    (total raw : ℕ) (o : Os)
    → raw + huge_page_size ≤ word_mod
    → (trim_huge total raw o).0 ≡ round_up raw
unfolding trim_huge
trim_huge_base total raw o fits = ground (arith, bit_and_mask 21 raw, align_up-pow 21 raw)

pub mapped_at :
    (total raw : ℕ) (o : Os)
    → next_mmap o ≡ some raw
    → raw + huge_page_size ≤ word_mod
    → (sys_alloc_huge_aligned total o).0 ≡ round_up raw
unfolding sys_alloc_huge_aligned
mapped_at total raw o e fits = rw (e, sys_alloc_huge_aligned) (trim_huge_base total raw _ fits)
