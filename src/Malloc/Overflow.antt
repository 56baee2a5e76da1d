-- ===== src/Malloc/Overflow.antt =====
-- `lz_malloc` on sizes so large that the header does not fit in front of them in 64 bits.
use lzmalloc.Base.{ℕ, ◌+◌, ◌*◌, ◌-◌, ◌≤◌, ◌<◌, ◌≡◌, refl, arith, some, false, ◌==◌, leb, ◌∙◌}
use lzmalloc.Config.{huge_page_size}
use lzmalloc.Huge.{sys_alloc_huge_aligned, direct_alloc}
use lzmalloc.Malloc.{malloc, within}
use lzmalloc.Malloc.Aligned.{mapped_at}
use lzmalloc.Os.{next_mmap}
use lzmalloc.Thread.{Process}
use lzmalloc.Vmm.Cache.{round_up}
use lzmalloc.Word.{word_mod, align_up, add64}
use lzmalloc.Word.Align.{align_up-pow}

-- For each of the 127 largest sizes, where the operating system grants 4 MB, `lz_malloc` does not
-- fail: its result is not NULL, in a mapping whose length, as the header records it, is 2 MB.
pub malloc-overflow :
    (fuel size raw : ℕ) (p : Process)
    → word_mod - 128 < size
    → size < word_mod
    → next_mmap p.world.os ≡ some raw
    → 0 < raw
    → raw + 2 * huge_page_size ≤ word_mod
    → (r : ℕ × Process) × (malloc fuel size p ≡ some r)
      × (r.0 ≡ round_up raw + 128)
      × (r.1.world.words (round_up raw + 64) ≡ huge_page_size)
unfolding malloc
malloc-overflow fuel size raw p low high e pos fits =
    (within p (direct_alloc 128 size p.world), rw (whole, small, medium) refl, ptr, length_word)
  where
    whole : (size == 0) ≡ false
    whole = ground arith

    small : leb size 32768 ≡ false
    small = ground arith

    medium : leb size 1048576 ≡ false
    medium = ground arith

    total : align_up (add64 128 size) huge_page_size ≡ huge_page_size
    total = align_up-pow 21 (add64 128 size) (omega arith) (omega arith) ∙ omega arith

    base : ℕ
    base = round_up raw

    base_at : (n : ℕ) → (sys_alloc_huge_aligned n p.world.os).0 ≡ base
    base_at n = mapped_at n raw p.world.os e (omega arith)

    live : (base == 0) ≡ false
    live = ground (arith, pos)

    ptr : (direct_alloc 128 size p.world).0 ≡ base + 128
    ptr =
        unfold direct_alloc in
        rw (base_at (align_up (add64 128 size) huge_page_size), live) (omega arith)

    length_word : (direct_alloc 128 size p.world).1.words (base + 64) ≡ huge_page_size
    length_word =
        unfold direct_alloc in
        rw (base_at (align_up (add64 128 size) huge_page_size), live) (ground (arith, total))
