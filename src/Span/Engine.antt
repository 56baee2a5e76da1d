-- ===== src/Span/Engine.antt =====
-- span.c: `lz_span_alloc` and `lz_span_free_local`. A span struct stands 64 bytes behind its chunk's
-- header, in page 0 of the chunk.
pub mod Preserve
pub mod Laws
pub mod Grant
pub mod Walk
pub mod Active
pub mod Pages
pub mod Life
pub mod Twice
use lzmalloc.Base.{
  ℕ, zero, suc, ◌+◌, ◌*◌, ◌-◌, ◌/◌, ◌%◌, ◌^◌, Option, none, some, ◌==◌, ◌||◌, leb, if◌then◌else◌,
  update,
}
use lzmalloc.Chunk.{type_span, calc_checksum}
use lzmalloc.Config.{cache_line_size, page_size, huge_page_size, span_total_pages}
use lzmalloc.Memory.{Span, World, set_header, set_span, set_tlh}
use lzmalloc.Rtree.{rtree_set, rtree_clear}
use lzmalloc.Span.{Bitmap, find_contiguous_pages, mark_all_free}
use lzmalloc.Vmm.{vmm_alloc_chunk, vmm_free_chunk}
use lzmalloc.Word.{u32, sub32, add64, sub64, align_up, align_down}

abbrev pub span_of : ℕ → ℕ
span_of chunk = add64 chunk cache_line_size

unfoldable pub required_pages : ℕ → ℕ
required_pages size = u32 (align_up size page_size / page_size)

-- the search on the span at `current`, with its effect on the memory
unfoldable pub find_in : ℕ → ℕ → World → Option ℕ × World
find_in required current w =
    let s = w.spans current in
    let (page, bm) = find_contiguous_pages required s.free_bitmap in
    (page, set_span current (record s { free_bitmap = bm }) w)

-- A span with the page that was found in it. `none` is the page index -1.
pub record Hit : Type 0 where
  pub current : ℕ
  pub page_idx : Option ℕ

-- the fast path, over at most `fuel` active spans from `current`
unfoldable pub walk : ℕ → ℕ → ℕ → World → Hit × World
walk zero required current w = (record { current = current; page_idx = none }, w)
walk (suc fuel) required current w =
    let s = w.spans current in
    let (page, w') = find_in required current w in
    let missed = walk fuel required s.next w' in
    let skipped = walk fuel required s.next w in
    if current == 0
    then (record { current = current; page_idx = none }, w)
    else if leb required (sub32 span_total_pages s.used_pages)
    then elim page [
      | none ↦ missed
      | some p ↦ (record { current = current; page_idx = some p }, w')
    ]
    else skipped

-- `~1ULL` in word 0, which holds the page of the metadata, and `~0ULL` in the others
abbrev pub pristine : Bitmap
pristine i = if i == 0 then 2 ^ 64 - 2 else 2 ^ 64 - 1

-- a chunk taken for spans: its header is written and the radix tree learns of it
unfoldable pub register_span : ℕ → ℕ → World → World
register_span tlh chunk w =
    let h = record (w.headers chunk) { owning_tlh = tlh; chunk_type = type_span } in
    let (root, os) = rtree_set chunk chunk (w.root, w.os) in
    record (set_header chunk (record h { checksum = calc_checksum h }) w) { root = root; os = os }

-- the span at `current` is written and linked in front of the active spans
unfoldable pub link_span : ℕ → ℕ → World → World
link_span tlh current w =
    let head = (w.tlhs tlh).active_spans in
    let fresh : Span = record {
      next = head;
      prev = 0;
      free_bitmap = pristine;
      used_pages = 1;
      alloc_size_pages = λ i. 0;
    } in
    let w1 = set_span current fresh w in
    let w2 =
      if head == 0 then w1 else set_span head (record (w1.spans head) { prev = current }) w1 in
    set_tlh tlh (record (w2.tlhs tlh) { active_spans = current }) w2

-- step 3, "Finalize Allocation"
unfoldable pub finalize : ℕ → ℕ → ℕ → World → ℕ × World
finalize page_idx required current w =
    let s = w.spans current in
    (
      add64 (align_down current huge_page_size) (page_idx * page_size),
      set_span current
          (record s {
            used_pages = u32 (s.used_pages + required);
            alloc_size_pages = update s.alloc_size_pages page_idx (required % 2 ^ 16);
          })
          w,
    )

-- the slow path: a new chunk; the failed search is the fatal error of the source
unfoldable pub alloc_in_new : ℕ → ℕ → World → ℕ × World
alloc_in_new tlh required w =
    let (chunk, w1) = vmm_alloc_chunk w in
    let (page, w2) =
      find_in required (span_of chunk)
        (link_span tlh (span_of chunk) (register_span tlh chunk w1)) in
    if chunk == 0
    then (0, w1)
    else elim page [ none ↦ (0, w2) | some p ↦ finalize p required (span_of chunk) w2 ]

-- `lz_span_alloc`: 0 is NULL
unfoldable pub span_alloc : ℕ → ℕ → ℕ → World → ℕ × World
span_alloc fuel tlh size w =
    let required = required_pages size in
    let (hit, w') = walk fuel required (w.tlhs tlh).active_spans w in
    if leb span_total_pages required then (0, w) else elim hit.page_idx [
      | none ↦ alloc_in_new tlh required w'
      | some p ↦ finalize p required hit.current w'
    ]

-- the pages of the allocation at `start` given back
unfoldable pub release : ℕ → Span → Span
release start s =
    let required = s.alloc_size_pages start in
    record s {
      free_bitmap = mark_all_free required start s.free_bitmap;
      alloc_size_pages = update s.alloc_size_pages start 0;
      used_pages = sub32 s.used_pages required;
    }

-- "Telemetry Batching"
unfoldable pub batch_freed : ℕ → ℕ → World → World
batch_freed tlh required w =
    let t = w.tlhs tlh in
    let batch = u32 (t.local_bytes_free_batch + u32 (required * page_size)) in
    if t.stat_slot == 0
    then w
    else if leb 4096 batch
    then set_tlh tlh (record t { local_bytes_free_batch = 0 })
        (record w { slots = update w.slots t.stat_slot (sub64 (w.slots t.stat_slot) batch) })
    else set_tlh tlh (record t { local_bytes_free_batch = batch }) w

-- the span leaves the list of active spans: what points to it from before and from behind
unfoldable pub unlink_before : ℕ → ℕ → World → World
unlink_before tlh span w =
    let s = w.spans span in
    if s.prev == 0
    then set_tlh tlh (record (w.tlhs tlh) { active_spans = s.next }) w
    else set_span s.prev (record (w.spans s.prev) { next = s.next }) w

unfoldable pub unlink_behind : ℕ → World → World
unlink_behind span w =
    let s = w.spans span in
    if s.next == 0 then w else set_span s.next (record (w.spans s.next) { prev = s.prev }) w

-- "Destruction": the chunk goes back to the VMM
unfoldable pub destroy_span : ℕ → ℕ → World → World
destroy_span tlh chunk w =
    let w1 = unlink_behind (span_of chunk) (unlink_before tlh (span_of chunk) w) in
    let (root, os) = rtree_clear chunk (w1.root, w1.os) in
    vmm_free_chunk chunk (record w1 { root = root; os = os })

-- `lz_span_free_local`, and `lz_span_free_remote`
unfoldable pub span_free_local : ℕ → ℕ → ℕ → World → World
span_free_local tlh chunk ptr w =
    let start_page = u32 (sub64 ptr chunk / page_size) in
    let s = w.spans (span_of chunk) in
    let required = s.alloc_size_pages start_page in
    let freed = batch_freed tlh required (set_span (span_of chunk) (release start_page s) w) in
    if start_page == 0 || leb span_total_pages start_page
    then w
    else if required == 0
    then w
    else if (freed.spans (span_of chunk)).used_pages == 1
    then destroy_span tlh chunk freed
    else freed

-- `lz_span_free_remote`
abbrev pub span_free_remote : ℕ → ℕ → ℕ → World → World
span_free_remote tlh chunk ptr w = span_free_local tlh chunk ptr w
