-- ===== src/Vmm/Trim.antt =====
-- A mapping is trimmed to its aligned part: what is kept and what is given back.
use lzmalloc.Base.{
  ℕ, ◌+◌, ◌%◌, ◌≤◌, ◌≡◌, arith, ltb, List, [], ◌∷◌, Bool, false, leb, ◌&&◌, ◌||◌, not,
}
use lzmalloc.Bits.{bit_and_mask}
use lzmalloc.Config.{huge_page_size, extent_size}
use lzmalloc.Os.{Os, OsCall, mmap, munmap, madvise_hugepage, madvise_dontneed}
use lzmalloc.Vmm.{trim_extent, extent_request}
use lzmalloc.Vmm.Cache.{round_up}
use lzmalloc.Word.{word_mod}
use lzmalloc.Word.Align.{align_up-pow}

-- the byte at `p` is given back by one of the calls
abbrev pub unmapped : ℕ → List OsCall → Bool
unmapped p [] = false
unmapped p (mmap answer len ∷ cs) = unmapped p cs
unmapped p (munmap addr len ∷ cs) = leb addr p && ltb p (addr + len) || unmapped p cs
unmapped p (madvise_hugepage addr len ∷ cs) = unmapped p cs
unmapped p (madvise_dontneed addr len ∷ cs) = unmapped p cs

pub trim_extent_addr :
    (raw : ℕ) (o : Os) → raw + huge_page_size ≤ word_mod → (trim_extent raw o).0 ≡ round_up raw
unfolding trim_extent
trim_extent_addr raw o fits = ground (arith, bit_and_mask 21 raw, align_up-pow 21 raw)

-- Of the mapping at `raw` that `sys_alloc_extent` asks for, it keeps 64 MB from a 2 MB boundary,
-- all within the mapping, and gives back exactly the bytes of the mapping outside them.
pub trim_extent_exact :
    (raw p : ℕ) (o : Os)
    → raw + extent_request ≤ word_mod
    → let (base, o') = trim_extent raw (record o { calls = [] }) in
      (base % huge_page_size ≡ 0)
      × (raw ≤ base)
      × (base + extent_size ≤ raw + extent_request)
      × (unmapped p o'.calls ≡ (
          leb raw p
          && ltb p (raw + extent_request)
          && not (leb base p && ltb p (base + extent_size))))
unfolding trim_extent
trim_extent_exact raw p o fits = ground (arith, bit_and_mask 21 raw, align_up-pow 21 raw)
