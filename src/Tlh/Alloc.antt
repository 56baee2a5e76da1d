-- ===== src/Tlh/Alloc.antt =====
-- tlh.c: `lz_tlh_alloc` and its slow path.
use lzmalloc.Base.{ℕ, ◌+◌, not, ◌==◌, ◌&&◌, leb, ltb, if◌then◌else◌, update}
use lzmalloc.Config.{max_slab_obj_size}
use lzmalloc.Memory.{World, set_slab, set_tlh}
use lzmalloc.Sizes.{size_to_class}
use lzmalloc.Slab.{slab_create}
use lzmalloc.Span.Engine.{span_alloc}
use lzmalloc.Tlh.{bin_of, set_bin, set_prev, pop_node, promote, reap}
use lzmalloc.Word.{u32, add64}

-- the exhausted current slab of the bin, if there is one, moves to the full list
unfoldable pub retire : ℕ → ℕ → ℕ → World → World
retire tlh class_idx slab w =
    let full = (bin_of tlh class_idx w).full_list in
    let w1 =
      set_prev full slab (set_slab slab (record (w.slabs slab) { next = full; prev = 0 }) w) in
    if slab == 0
    then w
    else set_bin tlh class_idx (record (bin_of tlh class_idx w1) { full_list = slab }) w1

-- the next block at the bump pointer of the slab
unfoldable pub take_bump : ℕ → World → ℕ × World
take_bump slab w =
    let s = w.slabs slab in
    (
      s.bump_ptr,
      set_slab slab
          (record s {
            bump_ptr = add64 s.bump_ptr s.block_size;
            used_objects = u32 (s.used_objects + 1);
          })
          w,
    )

-- `lz_tlh_alloc_slow`: 0 is NULL
unfoldable pub alloc_slow : ℕ → ℕ → World → ℕ × World
alloc_slow tlh class_idx w =
    let slab = (bin_of tlh class_idx w).current_slab in
    let promoted = promote tlh class_idx (retire tlh class_idx slab w) in
    let (new_slab, w1) = slab_create tlh class_idx w in
    let w2 = retire tlh class_idx slab w1 in
    let w3 =
      set_bin tlh class_idx (record (bin_of tlh class_idx w2) { current_slab = new_slab }) w2 in
    if not ((bin_of tlh class_idx w).partial_list == 0)
    then pop_node (bin_of tlh class_idx promoted).current_slab promoted
    else if new_slab == 0
    then (0, w1)
    else take_bump new_slab w3

-- the bump allocation of the warm path; 0 when the slab is exhausted
unfoldable pub bump_or_close : ℕ → World → ℕ × World
unfolding take_bump
bump_or_close slab w =
    let s = w.slabs slab in
    if leb (add64 s.bump_ptr s.block_size) s.memory_end
    then take_bump slab w
    else (0, set_slab slab (record s { bump_ptr = 0 }) w)

-- the warm path: the mailbox is emptied first, which can change the bin
unfoldable pub alloc_warm : ℕ → ℕ → ℕ → World → ℕ × World
alloc_warm fuel tlh class_idx w =
    let w1 = reap fuel tlh w in
    let slab = (bin_of tlh class_idx w1).current_slab in
    let s = w1.slabs slab in
    if not (slab == 0) && not (s.free_list_head == 0)
    then pop_node slab w1
    else if not (slab == 0) && not (s.bump_ptr == 0)
    then bump_or_close slab w1
    else (0, w1)

-- the fastest path, else the warm path
unfoldable pub alloc_fast : ℕ → ℕ → ℕ → World → ℕ × World
alloc_fast fuel tlh class_idx w =
    let slab = (bin_of tlh class_idx w).current_slab in
    if not (slab == 0) && not ((w.slabs slab).free_list_head == 0)
    then pop_node slab w
    else alloc_warm fuel tlh class_idx w

-- "Telemetry Batching" for `bytes` that were handed out
unfoldable pub count_allocated : ℕ → ℕ → World → World
count_allocated tlh bytes w =
    let t = record (w.tlhs tlh) { bytes_allocated = add64 (w.tlhs tlh).bytes_allocated bytes } in
    let batch = u32 (t.local_bytes_alloc_batch + bytes) in
    if t.stat_slot == 0
    then set_tlh tlh t w
    else if leb 1048576 batch
    then set_tlh tlh (record t { local_bytes_alloc_batch = 0 })
        (record w { slots = update w.slots t.stat_slot (add64 (w.slots t.stat_slot) batch) })
    else set_tlh tlh (record t { local_bytes_alloc_batch = batch }) w

-- the slow path where the others gave nothing, and then the telemetry
unfoldable pub alloc_small : ℕ → ℕ → ℕ → World → ℕ × World
alloc_small fuel tlh class_idx w =
    let (fast, w1) = alloc_fast fuel tlh class_idx w in
    let (slow, w2) = alloc_slow tlh class_idx w1 in
    let fast_size = (w1.slabs (bin_of tlh class_idx w1).current_slab).block_size in
    let slow_size = (w2.slabs (bin_of tlh class_idx w2).current_slab).block_size in
    if fast == 0
    then if slow == 0 then (0, w2) else (slow, count_allocated tlh slow_size w2)
    else (fast, count_allocated tlh fast_size w1)

-- `lz_tlh_alloc`: `fuel` bounds the loops over active spans and over the mailbox
unfoldable pub tlh_alloc : ℕ → ℕ → ℕ → World → ℕ × World
tlh_alloc fuel tlh size w =
    if ltb max_slab_obj_size size
    then span_alloc fuel tlh size w
    else alloc_small fuel tlh (size_to_class size) w
