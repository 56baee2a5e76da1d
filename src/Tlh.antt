-- ===== src/Tlh.antt =====
-- tlh.c: the heap of a thread. It serves small objects from slabs, one bin for each size class.
-- A node of a free list is a free block, named by its address; its link is masked while it is on
-- the list of a slab, and clear while it is in a batch or a mailbox.
pub mod FreeList
pub mod Flush
pub mod Outgoing
pub mod Remote
pub mod Mailbox
pub mod Alloc
pub mod Free
use lzmalloc.Base.{ℕ, zero, suc, ◌+◌, ◌-◌, not, ◌==◌, ◌&&◌, ◌||◌, leb, if◌then◌else◌, update}
use lzmalloc.Chunk.{type_slab, type_span, chunk_magic}
use lzmalloc.Config.{huge_page_size, max_size_classes}
use lzmalloc.Memory.{Bin, Batch, Tlh, Slab, World, set_slab, set_tlh, set_node}
use lzmalloc.Security.{ptr_obfuscate}
use lzmalloc.Slab.{slab_of, slab_destroy}
use lzmalloc.Span.Engine.{span_free_remote}
use lzmalloc.Word.{u32, add64, sub64, sub32, align_down}

abbrev pub bin_of : ℕ → ℕ → World → Bin
bin_of tlh class_idx w = (w.tlhs tlh).bins class_idx

abbrev pub set_bin : ℕ → ℕ → Bin → World → World
set_bin tlh class_idx b w =
    let t = w.tlhs tlh in set_tlh tlh (record t { bins = update t.bins class_idx b }) w

-- a store to `slab->prev` that a test for NULL guards, and one to `slab->next`
abbrev pub set_prev : ℕ → ℕ → World → World
set_prev slab prev w =
    if slab == 0 then w else set_slab slab (record (w.slabs slab) { prev = prev }) w

abbrev pub set_next : ℕ → ℕ → World → World
set_next slab next w =
    if slab == 0 then w else set_slab slab (record (w.slabs slab) { next = next }) w

-- the block on top of the slab's free list, and the memory without it
unfoldable pub pop_node : ℕ → World → ℕ × World
pop_node slab w =
    let s = w.slabs slab in
    let node = s.free_list_head in
    (
      node,
      set_slab slab
          (record s {
            free_list_head = ptr_obfuscate w.secret (w.nodes node) node;
            used_objects = u32 (s.used_objects + 1);
          })
          w,
    )

-- a block pushed on the slab's free list
unfoldable pub push_node : ℕ → ℕ → World → World
push_node slab node w =
    let s = w.slabs slab in
    set_slab slab (record s { free_list_head = node; used_objects = sub32 s.used_objects 1 })
      (set_node node (ptr_obfuscate w.secret s.free_list_head node) w)

-- `lz_tlh_rescue_from_full`
unfoldable pub rescue_from_full : ℕ → ℕ → World → World
rescue_from_full tlh slab w =
    let s = w.slabs slab in
    let class_idx = s.size_class in
    let bin = bin_of tlh class_idx w in
    let w1 =
      if s.prev == 0
      then set_bin tlh class_idx (record bin { full_list = s.next }) w
      else set_next s.prev s.next w in
    let w2 = set_prev (w1.slabs slab).next (w1.slabs slab).prev w1 in
    let partial = (bin_of tlh class_idx w2).partial_list in
    let w3 = set_slab slab (record (w2.slabs slab) { next = partial; prev = 0 }) w2 in
    let w4 = set_prev partial slab w3 in
    if slab == bin.current_slab
    then w
    else set_bin tlh class_idx (record (bin_of tlh class_idx w4) { partial_list = slab }) w4

-- the first slab of the partial list becomes the current slab of the bin
unfoldable pub promote : ℕ → ℕ → World → World
promote tlh class_idx w =
    let bin = bin_of tlh class_idx w in
    let slab = bin.partial_list in
    let rest = (w.slabs slab).next in
    let w1 =
      set_prev rest 0
        (set_bin tlh class_idx (record bin { current_slab = slab; partial_list = rest }) w) in
    set_slab slab (record (w1.slabs slab) { next = 0; prev = 0 }) w1

-- the slab leaves the list that it is on
unfoldable pub detach : ℕ → ℕ → World → World
detach tlh slab w =
    let s = w.slabs slab in
    let class_idx = s.size_class in
    let bin = bin_of tlh class_idx w in
    let w1 =
      if s.prev == 0
      then if bin.partial_list == slab
        then set_bin tlh class_idx (record bin { partial_list = s.next }) w
        else if bin.full_list == slab
        then set_bin tlh class_idx (record bin { full_list = s.next }) w
        else w
      else set_next s.prev s.next w in
    set_prev (w1.slabs slab).next (w1.slabs slab).prev w1

-- `lz_tlh_recycle_empty_slab`
unfoldable pub recycle_empty_slab : ℕ → ℕ → World → World
recycle_empty_slab tlh slab w =
    let class_idx = (w.slabs slab).size_class in
    let bin = bin_of tlh class_idx w in
    if slab == bin.current_slab
    then if bin.partial_list == 0 then w else slab_destroy slab (promote tlh class_idx w)
    else slab_destroy slab (detach tlh slab w)

-- `lz_tlh_flush_outgoing_batch`, its exchange of the head taken as one step
unfoldable pub flush_outgoing_batch : ℕ → World → World
flush_outgoing_batch tlh w =
    let batch = (w.tlhs tlh).outgoing_batch in
    let target = batch.target_tlh in
    let w1 = set_node batch.tail (w.tlhs target).remote_free_head w in
    let w2 = set_tlh target (record (w1.tlhs target) { remote_free_head = batch.head }) w1 in
    let cleared : Batch = record { target_tlh = 0; head = 0; tail = 0; count = 0 } in
    if batch.count == 0 || target == 0
    then w
    else set_tlh tlh (record (w2.tlhs tlh) { outgoing_batch = cleared }) w2

-- "Telemetry" for `bytes` that were freed
unfoldable pub count_freed : ℕ → ℕ → World → World
count_freed tlh bytes w =
    let t = w.tlhs tlh in
    let batch = u32 (t.local_bytes_free_batch + bytes) in
    if t.stat_slot == 0
    then w
    else if leb 4096 batch
    then set_tlh tlh (record t { local_bytes_free_batch = 0 })
        (record w { slots = update w.slots t.stat_slot (sub64 (w.slots t.stat_slot) batch) })
    else set_tlh tlh (record t { local_bytes_free_batch = batch }) w

-- a block goes back to its slab: the case of a slab in `lz_tlh_free` and in `lz_tlh_reap`
unfoldable pub free_to_slab : ℕ → ℕ → ℕ → World → World
free_to_slab tlh slab node w =
    let w1 = push_node slab node w in
    let s1 = w1.slabs slab in
    let w2 =
      if s1.used_objects == sub32 s1.max_objects 1 then rescue_from_full tlh slab w1 else w1 in
    let w3 = if (w2.slabs slab).used_objects == 0 then recycle_empty_slab tlh slab w2 else w2 in
    count_freed tlh (w3.slabs slab).block_size w3

-- the loop of `lz_tlh_reap`, over at most `fuel` nodes from `head`
unfoldable pub reap_loop : ℕ → ℕ → ℕ → World → World
reap_loop zero tlh head w = w
reap_loop (suc fuel) tlh head w =
    let next_clear = w.nodes head in
    let chunk = align_down head huge_page_size in
    let kind = (w.headers chunk).chunk_type in
    let slab_case = reap_loop fuel tlh next_clear (free_to_slab tlh (slab_of chunk) head w) in
    let span_case = reap_loop fuel tlh next_clear (span_free_remote tlh chunk head w) in
    let no_case = reap_loop fuel tlh next_clear w in
    if head == 0
    then w
    else if kind == type_slab
    then slab_case
    else if kind == type_span
    then span_case
    else no_case

-- `lz_tlh_reap`
unfoldable pub reap : ℕ → ℕ → World → World
reap fuel tlh w =
    let head = (w.tlhs tlh).remote_free_head in
    reap_loop fuel tlh head (set_tlh tlh (record (w.tlhs tlh) { remote_free_head = 0 }) w)

-- the loop of `lz_tlh_init` from index `i`
unfoldable pub init_bins : ℕ → ℕ → (ℕ → Bin) → ℕ → Bin
init_bins zero i bins = bins
init_bins (suc left) i bins =
    init_bins left (i + 1)
      (update bins i (record { current_slab = 0; partial_list = 0; full_list = 0 }))

-- `lz_tlh_init`, on the struct as it was
unfoldable pub tlh_init : ℕ → Tlh → Tlh
tlh_init tid t = record t {
  thread_id = tid;
  is_zombie = 0;
  bytes_allocated = 0;
  local_bytes_alloc_batch = 0;
  local_bytes_free_batch = 0;
  stat_slot = 0;
  active_spans = 0;
  remote_free_head = 0;
  outgoing_batch = record { target_tlh = 0; head = 0; tail = 0; count = 0 };
  bins = init_bins max_size_classes 0 t.bins;
}
