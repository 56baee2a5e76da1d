-- ===== src/Vmm/Threads.antt =====
-- vmm.c run by any number of threads at once. A step of a thread is one section under a lock, or
-- what it does between two sections: the pools are touched in sections alone, and what it stores
-- outside them goes to the header of a chunk that it holds.
pub mod Defs
pub mod Frame
pub mod Sections
pub mod Pushes
pub mod Extend
pub mod Moves
pub mod Safety
pub mod Alone
pub mod Conserved
use lzmalloc.Base.{
  ℕ, zero, suc, ◌+◌, ◌*◌, ◌<◌, ◌≤◌, ◌≡◌, Bool, true, false, Option, none, some, List, [], ◌∷◌, not,
  ◌||◌, ◌&&◌, ◌==◌, ltb, leb, if◌then◌else◌, update,
}
use lzmalloc.Chunk.{chunk_magic}
use lzmalloc.Config.{
  extent_chunks, extent_size, huge_page_size, vmm_max_cached_chunks, max_numa_nodes,
}
use lzmalloc.Memory.{World, set_pool}
use lzmalloc.Os.{madvise_hugepage, next_mmap, sys_call, sys_mmap}
use lzmalloc.Topology.{get_current_node, topology_get_pool}
use lzmalloc.Vmm.{
  pop_local, pop_global, push_local, push_global, push_chunks, deflate, trim_extent, extent_request,
}
use lzmalloc.Word.{word_mod}

-- Where a thread stands in `lz_vmm_alloc_chunk`, `lz_vmm_free_chunk` or `lz_vmm_purge_all_caches`.
-- `left` lists the chunks from `chunk` on of a list that was drained; the code does not keep it.
pub data Pc : Type 0 where
  idle : Pc
  alloc_called : Pc
  node_empty : (node : ℕ) → Pc
  extending : (node : ℕ) → Pc
  pushing : (node base : ℕ) → Pc
  refilled : (node : ℕ) → Pc
  allocated : (chunk : ℕ) → Pc
  free_called : (chunk : ℕ) → Pc
  spilling : (chunk : ℕ) → Pc
  purging : (node : ℕ) → Pc
  draining : (node chunk : ℕ) (left : List ℕ) → Pc

-- the chunks of a linked list of at most `count`
unfoldable pub chunks_of : ℕ → ℕ → World → List ℕ
chunks_of zero chunk w = []
chunks_of (suc count) chunk w =
    let rest = chunks_of count (w.headers chunk).next w in if chunk == 0 then [] else chunk ∷ rest

abbrev pub tail : List ℕ → List ℕ
tail [] = []
tail (x ∷ xs) = xs

-- what `sys_alloc_extent` does before it pushes the chunks
unfoldable pub map_extent : World → Option ℕ × World
map_extent w =
    let (raw, o) = sys_mmap extent_request w.os in
    elim raw [
      | none ↦ (none, record w { os = o })
      | some raw_addr ↦
          let (aligned_addr, o') = trim_extent raw_addr o in
          (
            some aligned_addr,
            record w { os = sys_call (madvise_hugepage aligned_addr extent_size) o' },
          )
    ]

abbrev pub extended : ℕ → Option ℕ × World → World × Pc
extended node (none, w) = (w, refilled node)
extended node (some base, w) = (w, pushing node base)

-- One step of a thread.
unfoldable pub advance : World → Pc → World × Pc
advance w idle = (w, idle)
advance w alloc_called =
    let (current_node, w') = get_current_node w in
    let i = topology_get_pool current_node in
    let (chunk, w1) = pop_local i w' in
    if (w'.pools i).free_chunks == 0 then (w', node_empty current_node) else (w1, allocated chunk)
advance w (node_empty node) =
    let (chunk, w1) = pop_global node w in
    if w.global_free_chunks == 0 then (w, extending node) else (w1, allocated chunk)
advance w (extending node) = extended node (map_extent w)
advance w (pushing node base) = (push_chunks extent_chunks 0 base w, refilled node)
advance w (refilled node) = let (chunk, w1) = pop_global node w in (w1, allocated chunk)
advance w (allocated chunk) = (w, allocated chunk)
advance w (free_called chunk) =
    let h = w.headers chunk in
    let i = topology_get_pool h.node_id in
    if chunk == 0 || not (h.magic == chunk_magic)
    then (w, idle)
    else if ltb (w.pools i).available_count vmm_max_cached_chunks
    then (push_local i chunk w, idle)
    else (w, spilling chunk)
advance w (spilling chunk) = (push_global chunk (deflate chunk w), idle)
advance w (purging node) =
    let i = topology_get_pool node in
    let pool = w.pools i in
    if ltb node max_numa_nodes
    then (
      set_pool i (record { free_chunks = 0; available_count = 0 }) w,
      draining node pool.free_chunks (chunks_of pool.available_count pool.free_chunks w),
    )
    else (w, idle)
advance w (draining node chunk left) =
    if chunk == 0
    then (w, purging (node + 1))
    else (push_global chunk (deflate chunk w), draining node (w.headers chunk).next (tail left))

-- `in_use` marks the chunks that the allocator has handed out and that were not given back, and
-- `mapped` the addresses that the system has mapped for chunks.
pub record System : Type 0 where
  pub world : World
  pub pc : ℕ → Pc
  pub in_use : ℕ → Bool
  pub mapped : ℕ → Bool

abbrev pub in_extent : ℕ → ℕ → Bool
in_extent base a = leb base a && ltb a (base + extent_size)

-- the addresses that a step maps
abbrev pub now_mapped : Pc → (ℕ → Bool) → ℕ → Bool
now_mapped (pushing node base) mapped a = in_extent base a || mapped a
now_mapped _ mapped a = mapped a

-- what the system promises of a mapping at `raw`: none of it is mapped already
pub record IsNew (mapped : ℕ → Bool) (raw : ℕ) : Type 0 where
  pub not_null : 0 < raw
  pub fits : raw + extent_request ≤ word_mod
  pub unmapped : (a : ℕ) → raw ≤ a → a < raw + extent_request → mapped a ≡ false

abbrev pub advanced : ℕ → System → System
advanced i s =
    let (w, p) = advance s.world (s.pc i) in
    record { world = w; pc = update s.pc i p; in_use = s.in_use; mapped = now_mapped p s.mapped }

-- Thread `i` goes on, calls a function, or takes the chunk that it was given. A client gives back a
-- chunk that is in use.
pub data Step (i : ℕ) (s : System) : System → Type 0 where
  go : ((raw : ℕ) → next_mmap s.world.os ≡ some raw → IsNew s.mapped raw) → Step i s (advanced i s)
  call_alloc : s.pc i ≡ idle → Step i s (record s { pc = update s.pc i alloc_called })
  return_alloc :
      (chunk : ℕ)
      → s.pc i ≡ allocated chunk
      → Step i s (record s {
        pc = update s.pc i idle;
        in_use = λ a. not (chunk == 0) && chunk == a || s.in_use a;
      })
  call_free :
      (chunk : ℕ)
      → s.pc i ≡ idle
      → s.in_use chunk ≡ true
      → Step i s (record s {
        pc = update s.pc i (free_called chunk);
        in_use = update s.in_use chunk false;
      })
  call_purge : s.pc i ≡ idle → Step i s (record s { pc = update s.pc i (purging 0) })

-- behind `lz_vmm_init`: the pools are empty, and nothing is mapped for chunks
pub record IsStart (s : System) : Type 0 where
  pub idle : (i : ℕ) → s.pc i ≡ idle
  pub none_in_use : (a : ℕ) → s.in_use a ≡ false
  pub none_mapped : (a : ℕ) → s.mapped a ≡ false
  pub no_local :
      (i : ℕ)
      → i < max_numa_nodes
      → ((s.world.pools i).free_chunks ≡ 0) × ((s.world.pools i).available_count ≡ 0)
  pub no_global : s.world.global_free_chunks ≡ 0

pub data Reach : System → Type 0 where
  start : {s : System} → IsStart s → Reach s
  later : {i : ℕ} {s t : System} → Reach s → Step i s t → Reach t
