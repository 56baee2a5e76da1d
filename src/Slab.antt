-- ===== src/Slab.antt =====
-- slab.c: a chunk formatted for blocks of one size class. A slab struct, 64 bytes long, stands 64
-- bytes behind its chunk's header.
pub mod Geometry
use lzmalloc.Base.{ℕ, ◌+◌, ◌-◌, ◌/◌, not, ◌==◌, if◌then◌else◌, update}
use lzmalloc.Chunk.{type_slab, calc_checksum}
use lzmalloc.Config.{cache_line_size, huge_page_size, sizeof_slab}
use lzmalloc.Memory.{Slab, World, set_header, set_slab}
use lzmalloc.Rtree.{rtree_set, rtree_clear}
use lzmalloc.Sizes.{class_to_size}
use lzmalloc.Vmm.{vmm_alloc_chunk, vmm_free_chunk}
use lzmalloc.Word.{u32, add64, sub64, align_up, align_down}

abbrev pub slab_of : ℕ → ℕ
slab_of chunk = add64 chunk cache_line_size

-- the slab struct that `lz_slab_create` writes into `chunk`
unfoldable pub blank_slab : ℕ → ℕ → Slab
blank_slab chunk class_idx =
    let data_start = align_up (add64 (slab_of chunk) sizeof_slab) cache_line_size in
    let data_end = add64 chunk huge_page_size in
    let size = u32 (class_to_size class_idx) in
    record {
      next = 0;
      prev = 0;
      memory_base = data_start;
      memory_end = data_end;
      bump_ptr = data_start;
      free_list_head = 0;
      size_class = class_idx;
      block_size = size;
      max_objects = u32 (sub64 data_end data_start / size);
      used_objects = 0;
    }

-- `lz_slab_create`: 0 is NULL
unfoldable pub slab_create : ℕ → ℕ → World → ℕ × World
unfolding blank_slab
slab_create tlh class_idx w =
    let (chunk, w1) = vmm_alloc_chunk w in
    let h = record (w1.headers chunk) { owning_tlh = tlh; chunk_type = type_slab } in
    let w2 = set_header chunk (record h { checksum = calc_checksum h }) w1 in
    let (root, os) = rtree_set chunk chunk (w2.root, w2.os) in
    if chunk == 0 then (0, w1) else (
      slab_of chunk,
      set_slab (slab_of chunk) (blank_slab chunk class_idx) (record w2 { root = root; os = os }),
    )

-- `lz_slab_destroy`; a wrong checksum is its fatal error
unfoldable pub slab_destroy : ℕ → World → World
slab_destroy slab w =
    let chunk = align_down slab huge_page_size in
    let (root, os) = rtree_clear chunk (w.root, w.os) in
    if not ((w.headers chunk).checksum == calc_checksum (w.headers chunk))
    then w
    else vmm_free_chunk chunk (record w { root = root; os = os })
