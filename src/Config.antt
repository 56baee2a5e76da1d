-- ===== src/Config.antt =====
-- The constants that CMake writes into lz_config.h, at the default profile (Linux, 4 KB pages and
-- 2 MB chunks), and those of sizes.h, rtree.h, span.h, vmm.c and telemetry.h.
use lzmalloc.Base.{ℕ, ◌^◌, ◌*◌, ◌-◌}

abbrev pub cache_line_size : ℕ
cache_line_size = 64

abbrev pub page_size : ℕ
page_size = 4096

abbrev pub huge_page_size : ℕ
huge_page_size = 2097152

abbrev pub max_numa_nodes : ℕ
max_numa_nodes = 16

abbrev pub max_slab_obj_size : ℕ
max_slab_obj_size = 32768

abbrev pub vmm_max_cached_chunks : ℕ
vmm_max_cached_chunks = 32

abbrev pub chunk_shift : ℕ
chunk_shift = 21

abbrev pub batch_max_size : ℕ
batch_max_size = 64

abbrev pub max_telemetry_slots : ℕ
max_telemetry_slots = 4096

abbrev pub min_alloc_size : ℕ
min_alloc_size = 16

abbrev pub small_linear_max : ℕ
small_linear_max = 128

abbrev pub max_size_classes : ℕ
max_size_classes = 88

abbrev pub rtree_l2_bits : ℕ
rtree_l2_bits = 14

abbrev pub rtree_l2_mask : ℕ
rtree_l2_mask = 2 ^ 14 - 1

abbrev pub rtree_l1_bits : ℕ
rtree_l1_bits = 13

abbrev pub rtree_l1_mask : ℕ
rtree_l1_mask = 2 ^ 13 - 1

abbrev pub span_total_pages : ℕ
span_total_pages = 512

abbrev pub span_bitmap_words : ℕ
span_bitmap_words = 8

abbrev pub extent_chunks : ℕ
extent_chunks = 32

abbrev pub extent_size : ℕ
extent_size = huge_page_size * extent_chunks

-- the largest request that the span engine serves, `1048576` in lzmalloc.c
abbrev pub max_span_size : ℕ
max_span_size = 1048576

abbrev pub sizeof_slab : ℕ
sizeof_slab = 64

abbrev pub thread_slot_base_idx : ℕ
thread_slot_base_idx = 1
