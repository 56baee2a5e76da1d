-- ===== src/Tlh/Mailbox.antt =====
-- tlh.c: the mailboxes of the heaps under any number of threads at once, thread `i` with heap `i`.
-- A step is one access to a mailbox or to the link of a block. A block has one place: with a client,
-- free, in the batch of a thread, in the mailbox of a heap, or taken from it by the heap's thread.
pub mod Defs
pub mod Moves
pub mod Delivery
use lzmalloc.Base.{
  ℕ, ◌+◌, ◌<◌, ◌≡◌, ◌≢◌, ◌⊎◌, Bool, true, false, List, [], ◌∷◌, ◌++◌, ◌==◌, ◌&&◌, not,
  if◌then◌else◌, mem, update,
}
use lzmalloc.Config.{batch_max_size}
use lzmalloc.Memory.{Batch}
use lzmalloc.Tlh.Flush.{no_batch}
use lzmalloc.Tlh.Free.{grow}

pub data Place : Type 0 where
  client : Place
  free : Place
  in_batch : (thread : ℕ) → Place
  in_mailbox : (tlh : ℕ) → Place
  taken : (thread : ℕ) → Place

-- `heads` are the `remote_free_head` of the heaps and `nexts` the links of the blocks. The code does
-- not keep `boxes`, the blocks in each mailbox, nor `place`.
pub record Shared : Type 0 where
  pub heads : ℕ → ℕ
  pub nexts : ℕ → ℕ
  pub boxes : ℕ → List ℕ
  pub place : ℕ → Place

-- Where a thread stands: outside, in the loop of `lz_tlh_flush_outgoing_batch` before the store to
-- the tail and before the exchange, or in `lz_tlh_reap`. `blocks` lists the blocks of its batch and
-- `rest` those that it has still to reap.
pub data Pc : Type 0 where
  outside : (batch : Batch) (blocks : List ℕ) → Pc
  linking : (batch : Batch) (blocks : List ℕ) (old_head : ℕ) → Pc
  swapping : (batch : Batch) (blocks : List ℕ) (old_head : ℕ) → Pc
  reaping : (batch : Batch) (blocks : List ℕ) (head : ℕ) (rest : List ℕ) → Pc

-- the blocks of `xs` move to `p`
abbrev pub move_to : Place → List ℕ → (ℕ → Place) → ℕ → Place
move_to p xs place a = if mem a xs then p else place a

-- `lz_tlh_flush_outgoing_batch`: the store to the tail
unfoldable pub link : Batch → ℕ → Shared → Shared
link batch old_head s = record s { nexts = update s.nexts batch.tail old_head }

-- `lz_tlh_flush_outgoing_batch`: the exchange, which may fail though the head is as it was
unfoldable pub swap : Bool → Batch → List ℕ → ℕ → Shared → Shared × Pc
swap spurious batch blocks old_head s =
    let target = batch.target_tlh in
    if s.heads target == old_head && not spurious
    then (
      record s {
        heads = update s.heads target batch.head;
        boxes = update s.boxes target (blocks ++ s.boxes target);
        place = move_to (in_mailbox target) blocks s.place;
      },
      outside no_batch [],
    )
    else (s, linking batch blocks (s.heads target))

-- `lz_tlh_reap`: the exchange that takes all blocks of the mailbox
unfoldable pub take_all : ℕ → Batch → List ℕ → Shared → Shared × Pc
take_all i batch blocks s = (
  record s {
    heads = update s.heads i 0;
    boxes = update s.boxes i [];
    place = move_to (taken i) (s.boxes i) s.place;
  },
  reaping batch blocks (s.heads i) (s.boxes i),
)

abbrev pub tail : List ℕ → List ℕ
tail [] = []
tail (x ∷ xs) = xs

-- `lz_tlh_reap`: one round of the loop; `junk` is what the free list stores in the block
unfoldable pub reap_one : ℕ → Batch → List ℕ → ℕ → List ℕ → Shared → Shared × Pc
reap_one junk batch blocks head rest s = if head == 0 then (s, outside batch blocks) else (
  record s { nexts = update s.nexts head junk; place = update s.place head free },
  reaping batch blocks (s.nexts head) (tail rest),
)

-- `lz_tlh_free` of a block of another heap, behind the flush of a batch that cannot take it
unfoldable pub add_block : ℕ → ℕ → ℕ → Batch → List ℕ → Shared → Shared × Pc
add_block i owner ptr batch blocks s = (
  record s { nexts = update s.nexts ptr batch.head; place = update s.place ptr (in_batch i) },
  outside (grow ptr (record batch { target_tlh = owner })) (ptr ∷ blocks),
)

pub record System : Type 0 where
  pub shared : Shared
  pub pc : ℕ → Pc

abbrev pub becomes : ℕ → Shared × Pc → System → System
becomes i r s = record { shared = r.0; pc = update s.pc i r.1 }

-- a block that no list has
abbrev pub IsLoose : Place → Type 0
IsLoose client = Unit
IsLoose free = Unit
IsLoose _ = ⊥

pub data Step (i : ℕ) (s : System) : System → Type 0 where
  -- a client frees a block of heap `owner`
  add :
      (owner ptr : ℕ) (batch : Batch) (blocks : List ℕ)
      → s.pc i ≡ outside batch blocks
      → s.shared.place ptr ≡ client
      → ptr ≢ 0
      → owner ≢ 0
      → batch.count < batch_max_size
      → (blocks ≡ []) ⊎ (batch.target_tlh ≡ owner)
      → Step i s (becomes i (add_block i owner ptr batch blocks s.shared) s)
  flush :
      (batch : Batch) (blocks : List ℕ)
      → s.pc i ≡ outside batch blocks
      → batch.count ≢ 0
      → batch.target_tlh ≢ 0
      → Step i s (becomes i (s.shared, linking batch blocks (s.shared.heads batch.target_tlh)) s)
  store_tail :
      (batch : Batch) (blocks : List ℕ) (old_head : ℕ)
      → s.pc i ≡ linking batch blocks old_head
      → Step i s (becomes i (link batch old_head s.shared, swapping batch blocks old_head) s)
  exchange :
      (spurious : Bool) (batch : Batch) (blocks : List ℕ) (old_head : ℕ)
      → s.pc i ≡ swapping batch blocks old_head
      → Step i s (becomes i (swap spurious batch blocks old_head s.shared) s)
  reap :
      (batch : Batch) (blocks : List ℕ)
      → s.pc i ≡ outside batch blocks
      → Step i s (becomes i (take_all i batch blocks s.shared) s)
  free_one :
      (junk : ℕ) (batch : Batch) (blocks : List ℕ) (head : ℕ) (rest : List ℕ)
      → s.pc i ≡ reaping batch blocks head rest
      → Step i s (becomes i (reap_one junk batch blocks head rest s.shared) s)
  -- a loose block is handed out or given back, and written to
  use_block :
      (ptr value : ℕ) (p : Place)
      → IsLoose (s.shared.place ptr)
      → IsLoose p
      → Step i s (record s {
        shared = record s.shared {
          nexts = update s.shared.nexts ptr value;
          place = update s.shared.place ptr p;
        };
      })

-- behind `lz_tlh_init` of each heap
abbrev pub init : (ℕ → ℕ) → System
init nexts = record {
  shared = record { heads = λ t. 0; nexts = nexts; boxes = λ t. []; place = λ a. free };
  pc = λ i. outside no_batch [];
}

pub data Reach : System → Type 0 where
  start : (nexts : ℕ → ℕ) → Reach (init nexts)
  later : {i : ℕ} {s t : System} → Reach s → Step i s t → Reach t
