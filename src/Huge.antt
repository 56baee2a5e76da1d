-- ===== src/Huge.antt =====
-- lzmalloc.c: objects of more than 1 MB, and those of a large alignment. Each is a mapping of its
-- own, whose header is registered for every 2 MB of it.
pub mod Trim
pub mod Register
pub mod Mapped
use lzmalloc.Base.{
  ℕ, zero, suc, ◌+◌, ◌-◌, ◌*◌, ◌/◌, bit_and, Option, none, some, ◌==◌, ltb, if◌then◌else◌, update,
}
use lzmalloc.Chunk.{Header, type_direct, chunk_magic, calc_checksum}
use lzmalloc.Config.{huge_page_size, cache_line_size}
use lzmalloc.Memory.{World, set_header}
use lzmalloc.Os.{Os, munmap, madvise_hugepage, sys_mmap, sys_call}
use lzmalloc.Rtree.{Root, rtree_set, rtree_clear}
use lzmalloc.Word.{add64, sub64, align_up}

-- the part of `lz_sys_alloc_huge_aligned` behind the mapping at `raw_addr`
unfoldable pub trim_huge : ℕ → ℕ → Os → ℕ × Os
unfolding sys_call
trim_huge total_size raw_addr o =
    let request_size = add64 total_size huge_page_size in
    let aligned_addr = align_up raw_addr huge_page_size in
    let prefix_size = sub64 aligned_addr raw_addr in
    let suffix_size = sub64 (sub64 request_size prefix_size) total_size in
    let o1 = if ltb 0 prefix_size then sys_call (munmap raw_addr prefix_size) o else o in
    let o2 =
      if ltb 0 suffix_size
      then sys_call (munmap (add64 aligned_addr total_size) suffix_size) o1
      else o1 in
    if bit_and raw_addr (huge_page_size - 1) == 0
    then (
      raw_addr,
      sys_call (madvise_hugepage raw_addr total_size)
          (sys_call (munmap (add64 raw_addr total_size) huge_page_size) o),
    )
    else (aligned_addr, sys_call (madvise_hugepage aligned_addr total_size) o2)

-- `lz_sys_alloc_huge_aligned`: 0 is NULL
unfoldable pub sys_alloc_huge_aligned : ℕ → Os → ℕ × Os
unfolding sys_mmap
sys_alloc_huge_aligned total_size o =
    let (raw, o') = sys_mmap (add64 total_size huge_page_size) o in
    elim raw [ none ↦ (0, o') | some raw_addr ↦ trim_huge total_size raw_addr o' ]

-- the header of a direct mapping; `h` is what the memory held
abbrev pub direct_header : Header → Header
direct_header h = record h {
  magic = chunk_magic;
  owning_tlh = 0;
  chunk_type = type_direct;
  node_id = 0;
  canary = 0;
  next = 0;
}

-- the loops over the 2 MB steps of a mapping, from `offset`: each entry becomes `metadata`
unfoldable pub set_range : ℕ → ℕ → ℕ → ℕ → ℕ → Root × Os → Root × Os
set_range zero base_addr total_bytes metadata offset s = s
set_range (suc fuel) base_addr total_bytes metadata offset s =
    let rest =
      set_range fuel base_addr total_bytes metadata (add64 offset huge_page_size)
        (rtree_set (add64 base_addr offset) metadata s) in
    if ltb offset total_bytes then rest else s

-- one step for each 2 MB, and one that finds the end
abbrev pub steps : ℕ → ℕ
steps total_bytes = total_bytes / huge_page_size + 1

-- The common part of `lz_malloc` and `lz_memalign`: the object starts at `offset` in its mapping.
unfoldable pub direct_alloc : ℕ → ℕ → World → ℕ × World
direct_alloc offset size w =
    let total_bytes = align_up (add64 offset size) huge_page_size in
    let (ptr, o) = sys_alloc_huge_aligned total_bytes w.os in
    let h = direct_header (w.headers ptr) in
    let header = record h { checksum = calc_checksum h } in
    let words = update (update w.words (ptr + 64) total_bytes) (ptr + 72) size in
    let (root, o') = set_range (steps total_bytes) ptr total_bytes ptr 0 (w.root, o) in
    if ptr == 0 then (0, record w { os = o }) else (
      add64 ptr offset,
      record (set_header ptr header w) { words = words; root = root; os = o' },
    )

-- the case of a direct mapping in `lz_free`
unfoldable pub direct_free : ℕ → World → World
direct_free chunk w =
    let total_bytes = w.words (chunk + 64) in
    let (root, o) = set_range (steps total_bytes) chunk total_bytes 0 0 (w.root, w.os) in
    record w { root = root; os = sys_call (munmap chunk total_bytes) o }
