-- ===== src/Tlh/Free.antt =====
-- tlh.c: `lz_tlh_free`.
use lzmalloc.Base.{ℕ, ◌+◌, not, ◌==◌, ◌||◌, leb, if◌then◌else◌}
use lzmalloc.Chunk.{type_slab, type_span, chunk_magic}
use lzmalloc.Config.{huge_page_size, batch_max_size}
use lzmalloc.Memory.{Batch, World, set_tlh, set_node}
use lzmalloc.Rtree.{rtree_get}
use lzmalloc.Slab.{slab_of}
use lzmalloc.Span.Engine.{span_free_local}
use lzmalloc.Tlh.{free_to_slab, flush_outgoing_batch}
use lzmalloc.Word.{u32, align_down}

-- the case of the owner
unfoldable pub free_local : ℕ → ℕ → ℕ → World → World
free_local tlh chunk ptr w =
    let kind = (w.headers chunk).chunk_type in
    if kind == type_slab
    then free_to_slab tlh (slab_of chunk) ptr w
    else if kind == type_span
    then span_free_local tlh chunk ptr w
    else w

-- a batch for another owner, or a full one, is flushed before the batch goes to `owner`
unfoldable pub retarget : ℕ → ℕ → World → World
retarget tlh owner w =
    let old = (w.tlhs tlh).outgoing_batch in
    let flushed = flush_outgoing_batch tlh w in
    let t = flushed.tlhs tlh in
    if not (old.target_tlh == owner) || leb batch_max_size old.count
    then set_tlh tlh (record t { outgoing_batch = record t.outgoing_batch { target_tlh = owner } })
        flushed
    else w

-- the batch with one block more at its head
abbrev pub grow : ℕ → Batch → Batch
grow ptr batch = record {
  target_tlh = batch.target_tlh;
  head = ptr;
  tail = if batch.count == 0 then ptr else batch.tail;
  count = u32 (batch.count + 1);
}

-- the block becomes the head of the batch
unfoldable pub extend_batch : ℕ → ℕ → World → World
extend_batch tlh ptr w =
    let t = w.tlhs tlh in
    set_tlh tlh (record t { outgoing_batch = grow ptr t.outgoing_batch })
      (set_node ptr t.outgoing_batch.head w)

-- the case of a block that another thread owns
unfoldable pub free_remote : ℕ → ℕ → ℕ → World → World
free_remote tlh owner ptr w = extend_batch tlh ptr (retarget tlh owner (set_node ptr 0 w))

-- the chunk of a pointer: by its address, or by the radix tree where no header is there
unfoldable pub chunk_of : ℕ → World → ℕ
chunk_of ptr w =
    let chunk = align_down ptr huge_page_size in
    if (w.headers chunk).magic == chunk_magic then chunk else rtree_get ptr w.root

-- `lz_tlh_free`
unfoldable pub tlh_free : ℕ → ℕ → World → World
tlh_free tlh ptr w =
    let chunk = chunk_of ptr w in
    let owner = (w.headers chunk).owning_tlh in
    if ptr == 0 || chunk == 0
    then w
    else if owner == tlh
    then free_local tlh chunk ptr w
    else free_remote tlh owner ptr w
