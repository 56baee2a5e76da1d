-- ===== src/Vmm/Frame.antt =====
-- What the operations on chunks leave alone: the spans and the heaps of the threads.
use lzmalloc.Base.{
  ℕ, zero, suc, ◌+◌, ◌*◌, ◌≡◌, refl, arith, Option-cases, inl, inr, Bool-cases, ◌==◌, ap, ◌∙◌,
}
use lzmalloc.Config.{huge_page_size, extent_chunks}
use lzmalloc.Memory.{World, Span, Tlh}
use lzmalloc.Os.{sys_mmap}
use lzmalloc.Topology.{get_current_node, get_current_node_world, topology_get_pool}
use lzmalloc.Vmm.{
  extent_request, push_global, push_chunks, sys_alloc_extent, pop_global, alloc_global, pop_local,
  vmm_alloc_chunk, push_local, deflate, vmm_free_chunk,
}
use lzmalloc.Word.{add64}

abbrev heaps : World → (ℕ → Span) × (ℕ → Tlh)
heaps w = (w.spans, w.tlhs)

heaps-push_chunks : (n i a : ℕ) (w : World) → heaps (push_chunks n i a w) ≡ heaps w
unfolding push_chunks
heaps-push_chunks zero i a w = refl
heaps-push_chunks (suc n) i a w =
    heaps-push_chunks n (i + 1) a (push_global (add64 a (i * huge_page_size)) w)

heaps-sys_alloc_extent : (w : World) → heaps (sys_alloc_extent w) ≡ heaps w
unfolding sys_alloc_extent
heaps-sys_alloc_extent w = elim (Option-cases (sys_mmap extent_request w.os).0) [
  | inl e ↦ rw (e, sys_alloc_extent) refl
  | inr (raw, e) ↦ rw (e, sys_alloc_extent) (heaps-push_chunks extent_chunks 0 _ _)
]

heaps-pop_global : (i : ℕ) (w : World) → heaps (pop_global i w).1 ≡ heaps w
unfolding pop_global
heaps-pop_global i w = ground arith

heaps-alloc_global : (i : ℕ) (w : World) → heaps (alloc_global i w).1 ≡ heaps w
unfolding alloc_global
heaps-alloc_global i w = elim (Bool-cases (w.global_free_chunks == 0)) [
  | inl e ↦
      rw (e, alloc_global) (heaps-pop_global i (sys_alloc_extent w) ∙ heaps-sys_alloc_extent w)
  | inr e ↦ rw (e, alloc_global) (heaps-pop_global i w)
]

heaps-vmm_alloc_chunk : (w : World) → heaps (vmm_alloc_chunk w).1 ≡ heaps w
unfolding vmm_alloc_chunk pop_local
heaps-vmm_alloc_chunk w =
    let (node, w') = get_current_node w in
    let same : heaps w' ≡ heaps w = ap heaps (get_current_node_world w) in
    elim (Bool-cases ((w'.pools (topology_get_pool node)).free_chunks == 0)) [
      | inl e ↦ rw e (heaps-alloc_global node w' ∙ same)
      | inr e ↦ rw e same
    ]

heaps-vmm_free_chunk : (chunk : ℕ) (w : World) → heaps (vmm_free_chunk chunk w) ≡ heaps w
unfolding vmm_free_chunk push_local deflate push_global
heaps-vmm_free_chunk chunk w = ground arith

pub vmm_alloc_chunk_spans : (w : World) → (vmm_alloc_chunk w).1.spans ≡ w.spans
vmm_alloc_chunk_spans w = ap (λ h. h.0) (heaps-vmm_alloc_chunk w)

pub vmm_alloc_chunk_tlhs : (w : World) → (vmm_alloc_chunk w).1.tlhs ≡ w.tlhs
vmm_alloc_chunk_tlhs w = ap (λ h. h.1) (heaps-vmm_alloc_chunk w)

pub vmm_free_chunk_spans : (chunk : ℕ) (w : World) → (vmm_free_chunk chunk w).spans ≡ w.spans
vmm_free_chunk_spans chunk w = ap (λ h. h.0) (heaps-vmm_free_chunk chunk w)

pub vmm_free_chunk_tlhs : (chunk : ℕ) (w : World) → (vmm_free_chunk chunk w).tlhs ≡ w.tlhs
vmm_free_chunk_tlhs chunk w = ap (λ h. h.1) (heaps-vmm_free_chunk chunk w)
