-- ===== src/Vmm/Threads/Alone.antt =====
-- A thread that is not interrupted does what the sequential functions do.
use lzmalloc.Base.{
  ℕ, zero, suc, ◌≡◌, inl, inr, refl, not, ◌||◌, ◌==◌, ltb, Option-cases, Bool-cases,
}
use lzmalloc.Config.{vmm_max_cached_chunks}
use lzmalloc.Chunk.{chunk_magic}
use lzmalloc.Memory.{World}
use lzmalloc.Os.{next_mmap, sys_mmap}
use lzmalloc.Topology.{get_current_node, topology_get_pool}
use lzmalloc.Vmm.{vmm_alloc_chunk, vmm_free_chunk, alloc_global, pop_global, sys_alloc_extent}
use lzmalloc.Vmm.Threads.{
  Pc, idle, alloc_called, node_empty, allocated, free_called, advance, extended, map_extent,
}

-- `n` steps of a thread alone
unfoldable pub run : ℕ → World × Pc → World × Pc
run zero s = s
run (suc n) (w, p) = run n (advance w p)

run_allocated : (n : ℕ) (w : World) (chunk : ℕ) → run n (w, allocated chunk) ≡ (w, allocated chunk)
unfolding run advance
run_allocated zero w chunk = refl
run_allocated (suc n) w chunk = run_allocated n w chunk

run_idle : (n : ℕ) (w : World) → run n (w, idle) ≡ (w, idle)
unfolding run advance
run_idle zero w = refl
run_idle (suc n) w = run_idle n w

-- mapping an extent, pushing its chunks and popping one
extend_pop :
    (w : World) (node : ℕ)
    → run 2 (extended node (map_extent w)) ≡ (
      (pop_global node (sys_alloc_extent w)).1,
      allocated (pop_global node (sys_alloc_extent w)).0,
    )
unfolding run advance map_extent sys_alloc_extent sys_mmap
extend_pop w node = elim (Option-cases (next_mmap w.os)) [
  | inl e ↦ rw (e, run, extended, map_extent, sys_alloc_extent) refl
  | inr (raw, e) ↦ rw (e, run, extended, map_extent, sys_alloc_extent) refl
]

node_empty-alloc_global :
    (w : World) (node : ℕ)
    → run 4 (w, node_empty node) ≡ ((alloc_global node w).1, allocated (alloc_global node w).0)
unfolding run advance alloc_global
node_empty-alloc_global w node = elim (Bool-cases (w.global_free_chunks == 0)) [
  | inl e ↦ rw e (extend_pop w node)
  | inr e ↦ rw e refl
]

alloc_called-vmm_alloc_chunk :
    (w : World) → run 5 (w, alloc_called) ≡ ((vmm_alloc_chunk w).1, allocated (vmm_alloc_chunk w).0)
unfolding run advance vmm_alloc_chunk
alloc_called-vmm_alloc_chunk w =
    let (node, w') = get_current_node w in
    elim (Bool-cases ((w'.pools (topology_get_pool node)).free_chunks == 0)) [
      | inl e ↦ rw e (node_empty-alloc_global w' node)
      | inr e ↦ rw e refl
    ]

free_called-vmm_free_chunk :
    (w : World) (chunk : ℕ) → run 2 (w, free_called chunk) ≡ (vmm_free_chunk chunk w, idle)
unfolding run advance vmm_free_chunk
free_called-vmm_free_chunk w chunk =
    elim (Bool-cases (chunk == 0 || not ((w.headers chunk).magic == chunk_magic))) [
      | inl e ↦ rw e refl
      | inr e ↦
          let i = topology_get_pool (w.headers chunk).node_id in
          elim (Bool-cases (ltb (w.pools i).available_count vmm_max_cached_chunks)) [
            | inl r ↦ rw (e, r) refl
            | inr r ↦ rw (e, r) refl
          ]
    ]

-- A thread that runs alone does what the sequential functions do: five steps from the call of
-- `lz_vmm_alloc_chunk` give its memory and its chunk, and two from a call of `lz_vmm_free_chunk`
-- give its memory.
pub run-vmm_alloc_chunk :
    (w : World) (chunk : ℕ)
    → (run 5 (w, alloc_called) ≡ ((vmm_alloc_chunk w).1, allocated (vmm_alloc_chunk w).0))
      × (run 2 (w, free_called chunk) ≡ (vmm_free_chunk chunk w, idle))
run-vmm_alloc_chunk w chunk = (alloc_called-vmm_alloc_chunk w, free_called-vmm_free_chunk w chunk)
