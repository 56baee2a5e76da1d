-- ===== src/Malloc.antt =====
-- lzmalloc.c: the functions of the public interface. The bytes of an object are not represented, so
-- neither are the `memset` of `lz_calloc` and the `memcpy` of `lz_realloc`. `none` is the trap of
-- `ensure_tls_init`; an address of 0 is NULL. `fuel` bounds the loops over lists.
pub mod Api
pub mod Aligned
pub mod Overflow
pub mod Large
pub mod Small
use lzmalloc.Base.{
  ℕ, zero, suc, ◌+◌, ◌-◌, ◌*◌, ◌/◌, ◌%◌, Option, none, some, not, ◌==◌, ◌||◌, ◌&&◌, leb, ltb,
  if◌then◌else◌,
}
use lzmalloc.Chunk.{type_slab, type_span, type_direct, chunk_magic}
use lzmalloc.Config.{huge_page_size, page_size, max_slab_obj_size}
use lzmalloc.Huge.{direct_alloc, direct_free}
use lzmalloc.Memory.{World}
use lzmalloc.Rtree.{rtree_get}
use lzmalloc.Slab.{slab_of}
use lzmalloc.Span.Engine.{span_of, span_alloc}
use lzmalloc.Thread.{Process, ensure_tls_init}
use lzmalloc.Tlh.Alloc.{tlh_alloc}
use lzmalloc.Tlh.Free.{tlh_free}
use lzmalloc.Word.{word_mod, u64, u32, sub64, is_power_of_two, align_up, align_down}

-- what an operation on the memory gives, with the memory put back
abbrev pub within : Process → ℕ × World → ℕ × Process
within p r = (r.0, record p { world = r.1 })

-- the operation on the heap of the running thread, which is set up first
abbrev pub with_tls : Process → (ℕ → World → ℕ × World) → Option (ℕ × Process)
with_tls p f = elim (ensure_tls_init p) [
  | none ↦ none
  | some q ↦ some (within q (f q.tls_tlh_ptr q.world))
]

-- `lz_malloc`
unfoldable pub malloc : ℕ → ℕ → Process → Option (ℕ × Process)
malloc fuel requested p =
    let size = if requested == 0 then 1 else requested in
    if leb size max_slab_obj_size
    then with_tls p (λ tlh w. tlh_alloc fuel tlh size w)
    else if leb size 1048576
    then with_tls p (λ tlh w. span_alloc fuel tlh size w)
    else some (within p (direct_alloc 128 size p.world))

-- the header that the radix tree knows for a pointer, or for the start of its 2 MB; 0 is NULL
unfoldable pub find_chunk : ℕ → World → ℕ
find_chunk ptr w =
    let chunk = rtree_get ptr w.root in
    if chunk == 0 then rtree_get (align_down ptr huge_page_size) w.root else chunk

-- `lz_free`
unfoldable pub free : ℕ → Process → Option Process
free ptr p =
    let chunk = find_chunk ptr p.world in
    let h = p.world.headers chunk in
    if ptr == 0 || chunk == 0
    then some p
    else if not (h.magic == chunk_magic)
    then some p
    else if h.chunk_type == type_direct
    then some (record p { world = direct_free chunk p.world })
    else elim (ensure_tls_init p) [
      | none ↦ none
      | some q ↦ some (record q { world = tlh_free q.tls_tlh_ptr ptr q.world })
    ]

-- `lz_malloc_usable_size`
unfoldable pub malloc_usable_size : ℕ → World → ℕ
malloc_usable_size ptr w =
    let chunk = find_chunk ptr w in
    let h = w.headers chunk in
    let start_page = u32 (sub64 ptr chunk / page_size) in
    if ptr == 0 || chunk == 0
    then 0
    else if not (h.magic == chunk_magic)
    then 0
    else if h.chunk_type == type_direct
    then w.words (chunk + 72)
    else if h.chunk_type == type_slab
    then (w.slabs (slab_of chunk)).block_size
    else if h.chunk_type == type_span
    then (w.spans (span_of chunk)).alloc_size_pages start_page * page_size
    else 0

-- `lz_calloc`
unfoldable pub calloc : ℕ → ℕ → ℕ → Process → Option (ℕ × Process)
calloc fuel num size p =
    if num == 0 || size == 0
    then malloc fuel 1 p
    else if ltb ((word_mod - 1) / num) size
    then some (0, p)
    else malloc fuel (u64 (num * size)) p

-- `lz_realloc`
unfoldable pub realloc : ℕ → ℕ → ℕ → Process → Option (ℕ × Process)
realloc fuel ptr new_size p =
    let old_size = malloc_usable_size ptr p.world in
    if ptr == 0
    then malloc fuel new_size p
    else if new_size == 0
    then elim (free ptr p) [ none ↦ none | some q ↦ some (0, q) ]
    else if old_size == 0
    then some (0, p)
    else if leb new_size old_size
    then some (ptr, p)
    else elim (malloc fuel new_size p) [
      | none ↦ none
      | some r ↦
          if r.0 == 0
          then some (0, r.1)
          else elim (free ptr r.1) [ none ↦ none | some q ↦ some (r.0, q) ]
    ]

-- `lz_memalign`
unfoldable pub memalign : ℕ → ℕ → ℕ → Process → Option (ℕ × Process)
memalign fuel alignment size p =
    if alignment == 0 || not (is_power_of_two alignment)
    then some (0, p)
    else if leb alignment 64 && leb size max_slab_obj_size
    then malloc fuel (align_up size alignment) p
    else if leb alignment page_size && leb size 1048576
    then with_tls p (λ tlh w. span_alloc fuel tlh size w)
    else some (within p (direct_alloc (align_up 128 alignment) size p.world))

pub data Errno : Type 0 where
  ok : Errno
  einval : Errno
  enomem : Errno

-- `lz_posix_memalign`: `memptr` is the address of the result, and the second component is what
-- is stored there, if anything is
unfoldable pub posix_memalign : ℕ → ℕ → ℕ → ℕ → Process → Option (Errno × Option ℕ × Process)
posix_memalign fuel memptr alignment size p =
    if memptr == 0
    then some (einval, none, p)
    else if not (alignment % 8 == 0) || not (is_power_of_two alignment)
    then some (einval, none, p)
    else elim (memalign fuel alignment size p) [
      | none ↦ none
      | some r ↦ if r.0 == 0 then some (enomem, none, r.1) else some (ok, some r.0, r.1)
    ]

-- `lz_aligned_alloc`
unfoldable pub aligned_alloc : ℕ → ℕ → ℕ → Process → Option (ℕ × Process)
aligned_alloc fuel alignment size p =
    if alignment == 0 || not (is_power_of_two alignment)
    then some (0, p)
    else if not (size % alignment == 0)
    then some (0, p)
    else memalign fuel alignment size p

-- what `sysconf` answers for the page size, `none` for a number that is not positive
abbrev pub page_size_or : Option ℕ → ℕ
page_size_or none = 4096
page_size_or (some n) = n

-- `lz_valloc`
unfoldable pub valloc : ℕ → Option ℕ → ℕ → Process → Option (ℕ × Process)
valloc fuel sysconf size p = memalign fuel (page_size_or sysconf) size p

-- `lz_pvalloc`
unfoldable pub pvalloc : ℕ → Option ℕ → ℕ → Process → Option (ℕ × Process)
pvalloc fuel sysconf size p =
    memalign fuel (page_size_or sysconf) (align_up size (page_size_or sysconf)) p
