-- ===== src/Memory.antt =====
-- The memory that the allocator works on. Each kind of struct is a map from addresses to records,
-- so a pointer is an address, `p->f` is a field of the record at `p`, and a store replaces the
-- record. Address 0 is NULL. An array inside a struct is a map from indices.
use lzmalloc.Base.{ℕ, update}
use lzmalloc.Chunk.{Header}
use lzmalloc.Os.{Os}
use lzmalloc.Rtree.{Root}

-- `lz_numa_pool_t`
pub record Pool : Type 0 where
  pub free_chunks : ℕ
  pub available_count : ℕ

-- `lz_span_t`
pub record Span : Type 0 where
  pub next : ℕ
  pub prev : ℕ
  pub free_bitmap : ℕ → ℕ
  pub used_pages : ℕ
  pub alloc_size_pages : ℕ → ℕ

-- `lz_slab_t`
pub record Slab : Type 0 where
  pub next : ℕ
  pub prev : ℕ
  pub memory_base : ℕ
  pub memory_end : ℕ
  pub bump_ptr : ℕ
  pub free_list_head : ℕ
  pub size_class : ℕ
  pub block_size : ℕ
  pub max_objects : ℕ
  pub used_objects : ℕ

-- `lz_bin_t`
pub record Bin : Type 0 where
  pub current_slab : ℕ
  pub partial_list : ℕ
  pub full_list : ℕ

-- `lz_batch_t`
pub record Batch : Type 0 where
  pub target_tlh : ℕ
  pub head : ℕ
  pub tail : ℕ
  pub count : ℕ

-- `lz_tlh_t`
pub record Tlh : Type 0 where
  pub bins : ℕ → Bin
  pub active_spans : ℕ
  pub remote_free_head : ℕ
  pub outgoing_batch : Batch
  pub thread_id : ℕ
  pub is_zombie : ℕ
  pub local_bytes_alloc_batch : ℕ
  pub local_bytes_free_batch : ℕ
  pub bytes_allocated : ℕ
  pub next_zombie : ℕ
  pub stat_slot : ℕ

-- Everything that the allocator reads and writes. `nodes` holds the `next` words of free-list
-- nodes, `words` single `size_t` words, and `slots` the counter `bytes_allocated` of each telemetry
-- slot, a signed 64-bit number in two's complement.
pub record World : Type 0 where
  pub headers : ℕ → Header
  pub spans : ℕ → Span
  pub slabs : ℕ → Slab
  pub tlhs : ℕ → Tlh
  pub nodes : ℕ → ℕ
  pub words : ℕ → ℕ
  pub slots : ℕ → ℕ
  pub pools : ℕ → Pool
  pub global_free_chunks : ℕ
  pub root : Root
  pub secret : ℕ
  pub os : Os

abbrev pub set_header : ℕ → Header → World → World
set_header p h w = record w { headers = update w.headers p h }

abbrev pub set_span : ℕ → Span → World → World
set_span p s w = record w { spans = update w.spans p s }

abbrev pub set_tlh : ℕ → Tlh → World → World
set_tlh p t w = record w { tlhs = update w.tlhs p t }

abbrev pub set_pool : ℕ → Pool → World → World
set_pool i p w = record w { pools = update w.pools i p }

abbrev pub set_slab : ℕ → Slab → World → World
set_slab p s w = record w { slabs = update w.slabs p s }

abbrev pub set_node : ℕ → ℕ → World → World
set_node p n w = record w { nodes = update w.nodes p n }
