-- ===== src/Tests/Heap.antt =====
-- Slabs, free lists, batches, zombies and the radix tree.
use lzmalloc.Base.{
  ℕ, ◌+◌, ◌*◌, ◌%◌, ◌≤◌, ◌<◌, ◌≡◌, inr, refl, arith, none, if◌then◌else◌, update, ◌==◌, leb, ltb,
  ◌&&◌, [], ◌∷◌, ◌++◌, Chain,
}
use lzmalloc.Config.{huge_page_size, cache_line_size, sizeof_slab}
use lzmalloc.Huge.{set_range, steps}
use lzmalloc.Huge.Register.{set_range_get}
use lzmalloc.Memory.{World}
use lzmalloc.Rtree.{rtree_get, rtree_set, block_num, Root}
use lzmalloc.Rtree.Laws.{rtree_get-rtree_set}
use lzmalloc.Slab.{blank_slab, slab_of}
use lzmalloc.Slab.Geometry.{blank_slab-blocks}
use lzmalloc.Tests.World.{world0, os0, process0}
use lzmalloc.Thread.{Process, tlh_destructor, resurrect_zombie}
use lzmalloc.Thread.Zombies.{Zombies, zombie_links, resurrect_zombie-tlh_destructor}
use lzmalloc.Tlh.{push_node, pop_node, flush_outgoing_batch}
use lzmalloc.Tlh.Flush.{Segment, no_batch, flush_outgoing_batch-delivers}
use lzmalloc.Tlh.Free.{free_remote}
use lzmalloc.Tlh.Outgoing.{batch_of, IsBatch}
use lzmalloc.Tlh.Remote.{free_remote-IsBatch}
use lzmalloc.Tlh.FreeList.{Masked, FreeList, push_node-FreeList, pop_node-FreeList}

abbrev no_root : Root
no_root i = none

rtree_get-rtree_set_example :
    rtree_get 7000000 (rtree_set 6291456 6291456 (no_root, os0)).0
    ≡ (if block_num 6291456 == block_num 7000000 then 6291456 else rtree_get 7000000 no_root)
rtree_get-rtree_set_example =
    rtree_get-rtree_set 6291456 6291456 7000000 (no_root, os0) (omega arith) (omega arith)
      (inr (inr (4096, refl)))

set_range_get_example :
    rtree_get 9000000
      (set_range
        (steps (2 * huge_page_size))
        6291456
        (2 * huge_page_size)
        6291456
        0
        (no_root, os0)).0
    ≡ (if leb 6291456 9000000 && ltb 9000000 (6291456 + 2 * huge_page_size)
        then 6291456
        else rtree_get 9000000 no_root)
set_range_get_example =
    set_range_get 6291456 2 6291456 9000000 (no_root, os0) refl (omega arith) (omega arith)
      (inr (λ j. (4096, refl)))

blank_slab-blocks_example :
    ((blank_slab 6291456 3).bump_ptr ≡ (blank_slab 6291456 3).memory_base)
    × ((blank_slab 6291456 3).memory_base % cache_line_size ≡ 0)
    × (slab_of 6291456 + sizeof_slab ≤ (blank_slab 6291456 3).memory_base)
    × ((blank_slab 6291456 3).memory_end ≡ 6291456 + huge_page_size)
    × ((k : ℕ)
        → k < (blank_slab 6291456 3).max_objects
        → (blank_slab 6291456 3).memory_base + (k + 1) * (blank_slab 6291456 3).block_size
          ≤ (blank_slab 6291456 3).memory_end)
    × ((blank_slab 6291456 3).memory_end
        < (blank_slab 6291456 3).memory_base
          + ((blank_slab 6291456 3).max_objects + 1) * (blank_slab 6291456 3).block_size)
    × (63 ≤ (blank_slab 6291456 3).max_objects)
blank_slab-blocks_example = blank_slab-blocks 6291456 3 refl (omega arith) (omega arith)

world0-FreeList : FreeList world0 500 []
world0-FreeList = unfold Masked in refl

push_node-FreeList_example : FreeList (push_node 500 1024 world0) 500 (1024 ∷ [])
push_node-FreeList_example =
    push_node-FreeList 500 1024 world0 [] (omega arith) (omega arith) (omega arith) refl
      world0-FreeList

pop_node-FreeList_example :
    ((pop_node 500 (push_node 500 1024 world0)).0 ≡ 1024)
    × FreeList (pop_node 500 (push_node 500 1024 world0)).1 500 []
pop_node-FreeList_example = pop_node-FreeList 500 1024 (push_node 500 1024 world0) [] (
    push_node-FreeList 500 1024 world0 [] (omega arith) (omega arith) (omega arith) refl
      world0-FreeList)

-- thread heap 100 has a batch of two blocks for heap 200
abbrev batched : World
batched = record world0 {
  nodes = update world0.nodes 5000 6000;
  tlhs = update world0.tlhs 100 (record (world0.tlhs 100) {
    outgoing_batch = record { target_tlh = 200; head = 5000; tail = 6000; count = 2 };
  });
}

two_blocks : Segment batched.nodes 5000 6000 (5000 ∷ 6000 ∷ [])
two_blocks = unfold Segment in (refl, ground arith, refl, (refl, refl, ground arith))

flush_outgoing_batch-delivers_example :
    Chain
      (flush_outgoing_batch 100 batched).nodes
      ((flush_outgoing_batch 100 batched).tlhs 200).remote_free_head
      ((5000 ∷ 6000 ∷ []) ++ [])
    × (((flush_outgoing_batch 100 batched).tlhs 100).outgoing_batch ≡ no_batch)
flush_outgoing_batch-delivers_example =
    flush_outgoing_batch-delivers 100 batched (5000 ∷ 6000 ∷ []) [] (ground arith) (ground arith)
      two_blocks refl (λ a m. refl)

-- a heap that ends when another one is on the list
abbrev one_zombie : Process
one_zombie = record process0 { zombie_tlhs = 4096 }

resurrect_zombie-tlh_destructor_example :
    let q = tlh_destructor 8192 one_zombie in
    let r = resurrect_zombie q in
    Zombies q (8192 ∷ 4096 ∷ [])
    × (r.0 ≡ 8192)
    × Zombies r.1 (4096 ∷ [])
    × (zombie_links r.1.world 8192 ≡ 0)
resurrect_zombie-tlh_destructor_example =
    resurrect_zombie-tlh_destructor 8192 (4096 ∷ []) one_zombie (ground arith) refl
      (refl, λ e. omega (arith, e), refl, refl)

free_remote-IsBatch_example :
    let w' = free_remote 100 200 7000 batched in
    let b = batch_of 100 w' in
    (b.target_tlh ≡ 200)
    × (b.count ≤ 64)
    × IsBatch w'.nodes b (7000 ∷ 5000 ∷ 6000 ∷ [])
    × Chain w'.nodes (w'.tlhs 200).remote_free_head []
free_remote-IsBatch_example =
    free_remote-IsBatch 100 200 7000 batched (5000 ∷ 6000 ∷ []) [] (ground arith) (omega arith)
      (inr (ground arith)) (refl, inr two_blocks) refl (λ a m. refl) refl
