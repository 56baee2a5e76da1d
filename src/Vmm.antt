-- ===== src/Vmm.antt =====
-- vmm.c: 2 MB chunks, cached in a pool for each NUMA node and in a global pool behind them. Each
-- section under a lock is one step. Locks has the locks, and Threads the sections of many threads.
pub mod Cache
pub mod Alloc
pub mod Extent
pub mod Free
pub mod Fresh
pub mod Frame
pub mod Purge
pub mod Locks
pub mod Threads
pub mod Trim
use lzmalloc.Base.{
  ℕ, zero, suc, ◌+◌, ◌*◌, ◌-◌, bit_and, none, some, not, ◌==◌, ◌||◌, ltb, if◌then◌else◌, update,
}
use lzmalloc.Chunk.{chunk_magic}
use lzmalloc.Config.{
  huge_page_size, page_size, extent_chunks, extent_size, vmm_max_cached_chunks, max_numa_nodes,
}
use lzmalloc.Memory.{World, set_header, set_pool}
use lzmalloc.Os.{Os, munmap, madvise_hugepage, madvise_dontneed, sys_mmap, sys_call}
use lzmalloc.Topology.{get_current_node, topology_get_pool, topology_init}
use lzmalloc.Word.{add64, sub64, align_up}

-- `chunk->next = g_global_free_chunks; g_global_free_chunks = chunk`
unfoldable pub push_global : ℕ → World → World
push_global chunk w = record w {
  headers = update w.headers chunk (record (w.headers chunk) { next = w.global_free_chunks });
  global_free_chunks = chunk;
}

-- the loop of `sys_alloc_extent` from index `i`
unfoldable pub push_chunks : ℕ → ℕ → ℕ → World → World
unfolding push_global
push_chunks zero i aligned_addr w = w
push_chunks (suc left) i aligned_addr w =
    push_chunks left (i + 1) aligned_addr (push_global (add64 aligned_addr (i * huge_page_size)) w)

abbrev pub extent_request : ℕ
extent_request = extent_size + huge_page_size

-- the start of the extent in a mapping at `raw_addr`, and the parts that are given back
unfoldable pub trim_extent : ℕ → Os → ℕ × Os
unfolding sys_call
trim_extent raw_addr o =
    if not (bit_and raw_addr (huge_page_size - 1) == 0)
    then (let aligned_addr = align_up raw_addr huge_page_size in
        let prefix_size = sub64 aligned_addr raw_addr in
        let suffix_size = sub64 (sub64 extent_request prefix_size) extent_size in
        let o1 = if ltb 0 prefix_size then sys_call (munmap raw_addr prefix_size) o else o in
        let o2 =
          if ltb 0 suffix_size
          then sys_call (munmap (add64 aligned_addr extent_size) suffix_size) o1
          else o1 in
        (aligned_addr, o2))
    else (raw_addr, sys_call (munmap (add64 raw_addr extent_size) huge_page_size) o)

-- `sys_alloc_extent`
unfoldable pub sys_alloc_extent : World → World
unfolding sys_mmap
sys_alloc_extent w =
    let (raw, o) = sys_mmap extent_request w.os in
    elim raw [
      | none ↦ record w { os = o }
      | some raw_addr ↦
          let (aligned_addr, o') = trim_extent raw_addr o in
          push_chunks extent_chunks 0 aligned_addr
            (record w { os = sys_call (madvise_hugepage aligned_addr extent_size) o' })
    ]

-- `lz_vmm_init`
unfoldable pub vmm_init : World → World
unfolding topology_init
vmm_init w = topology_init w

-- the part of `lz_vmm_alloc_chunk` that pops the global list and neutralises the header
unfoldable pub pop_global : ℕ → World → ℕ × World
pop_global current_node w =
    let chunk = w.global_free_chunks in
    let h = w.headers chunk in
    if chunk == 0 then (0, w) else (
      chunk,
      record w {
        headers = update w.headers chunk (record h {
          next = 0;
          owning_tlh = 0;
          node_id = current_node;
          magic = chunk_magic;
          canary = 0;
          checksum = 0;
        });
        global_free_chunks = h.next;
      },
    )

-- the part of `lz_vmm_alloc_chunk` behind the cache of the node
unfoldable pub alloc_global : ℕ → World → ℕ × World
alloc_global current_node w =
    pop_global current_node (if w.global_free_chunks == 0 then sys_alloc_extent w else w)

-- the part that pops the cache of the node
unfoldable pub pop_local : ℕ → World → ℕ × World
pop_local i w =
    let pool = w.pools i in
    let top = pool.free_chunks in
    let h = w.headers top in
    (
      top,
      set_header top (record h { next = 0 })
          (set_pool i
            (record { free_chunks = h.next; available_count = sub64 pool.available_count 1 }) w),
    )

-- `lz_vmm_alloc_chunk`: 0 is NULL
unfoldable pub vmm_alloc_chunk : World → ℕ × World
vmm_alloc_chunk w =
    let (current_node, w') = get_current_node w in
    let i = topology_get_pool current_node in
    if (w'.pools i).free_chunks == 0 then alloc_global current_node w' else pop_local i w'

-- `madvise` on all pages of a chunk but the first
unfoldable pub deflate : ℕ → World → World
unfolding sys_call
deflate chunk w = record w {
  os = sys_call (madvise_dontneed (add64 chunk page_size) (sub64 huge_page_size page_size)) w.os;
}

-- the part of `lz_vmm_free_chunk` that pushes on the list of pool `i`
unfoldable pub push_local : ℕ → ℕ → World → World
push_local i chunk w =
    let pool = w.pools i in
    set_header chunk (record (w.headers chunk) { next = pool.free_chunks })
      (set_pool i (record { free_chunks = chunk; available_count = add64 pool.available_count 1 })
        w)

-- `lz_vmm_free_chunk`
unfoldable pub vmm_free_chunk : ℕ → World → World
vmm_free_chunk chunk w =
    let h = w.headers chunk in
    let i = topology_get_pool h.node_id in
    if chunk == 0 || not (h.magic == chunk_magic)
    then w
    else if ltb (w.pools i).available_count vmm_max_cached_chunks
    then push_local i chunk w
    else push_global chunk (deflate chunk w)

-- the loop of `lz_vmm_purge_all_caches` over a drained list
unfoldable pub purge_loop : ℕ → ℕ → World → World
purge_loop zero chunk w = w
purge_loop (suc fuel) chunk w =
    let next = (w.headers chunk).next in
    let rest = purge_loop fuel next (push_global chunk (deflate chunk w)) in
    if chunk == 0 then w else rest

-- one round of `lz_vmm_purge_all_caches`; the count of the pool bounds the length of its list
unfoldable pub purge_pool : ℕ → World → World
purge_pool node w =
    let i = topology_get_pool node in
    let pool = w.pools i in
    purge_loop (pool.available_count + 1) pool.free_chunks
      (set_pool i (record { free_chunks = 0; available_count = 0 }) w)

unfoldable pub purge_from : ℕ → ℕ → World → World
unfolding purge_pool
purge_from zero i w = w
purge_from (suc left) i w = purge_from left (i + 1) (purge_pool i w)

-- `lz_vmm_purge_all_caches`
unfoldable pub vmm_purge_all_caches : World → World
unfolding purge_from
vmm_purge_all_caches w = purge_from max_numa_nodes 0 w
