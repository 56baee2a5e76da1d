-- ===== src/Huge/Trim.antt =====
-- A huge mapping is trimmed to its aligned part.
use lzmalloc.Base.{ℕ, ◌+◌, ◌%◌, ◌≤◌, ◌<◌, ◌≡◌, arith, ltb, leb, [], ◌&&◌, not}
use lzmalloc.Bits.{bit_and_mask}
use lzmalloc.Config.{huge_page_size}
use lzmalloc.Huge.{trim_huge}
use lzmalloc.Os.{Os}
use lzmalloc.Vmm.Trim.{unmapped}
use lzmalloc.Word.{word_mod}
use lzmalloc.Word.Align.{align_up-pow}

-- Of a mapping of `total` bytes and 2 MB at `raw`, `lz_sys_alloc_huge_aligned` keeps `total` bytes
-- from a 2 MB boundary, all within the mapping, and gives back exactly the other bytes of it.
pub trim_huge_exact :
    (total raw p : ℕ) (o : Os)
    → raw + total + huge_page_size ≤ word_mod
    → 0 < total
    → let (base, o') = trim_huge total raw (record o { calls = [] }) in
      (base % huge_page_size ≡ 0)
      × (raw ≤ base)
      × (base + total ≤ raw + total + huge_page_size)
      × (unmapped p o'.calls ≡ (
          leb raw p
          && ltb p (raw + total + huge_page_size)
          && not (leb base p && ltb p (base + total))))
unfolding trim_huge
trim_huge_exact total raw p o fits pos = ground (arith, bit_and_mask 21 raw, align_up-pow 21 raw)
