-- ===== src/Rtree/Race.antt =====
-- rtree.c: `lz_rtree_set` and `lz_rtree_get` run by any number of threads at once. A step is one
-- atomic access to the root or to a leaf, or one system call of one thread.
pub mod Defs
pub mod Shared
pub mod Leaks
pub mod Progress
pub mod Linear
use lzmalloc.Base.{ℕ, ◌<◌, ◌≡◌, Bool, true, false, Option, none, some, ◌==◌, if◌then◌else◌, update}
use lzmalloc.Rtree.{Root, l1_idx, l2_idx}

-- The root holds addresses of leaves, 0 for NULL. `mapped` marks the leaves that
-- `alloc_internal_node` has mapped and `munmap` has not given back.
pub record Index : Type 0 where
  pub leaves : ℕ → ℕ
  pub entries : ℕ → ℕ → ℕ
  pub mapped : ℕ → Bool

-- Where a thread stands: before the load of the leaf, with the leaf found missing, with a leaf of
-- its own to publish, with a leaf to store into, and the same for a look-up.
pub data Pc : Type 0 where
  idle : Pc
  set_called : (chunk_addr metadata : ℕ) → Pc
  missing : (chunk_addr metadata : ℕ) → Pc
  publishing : (chunk_addr metadata new_leaf : ℕ) → Pc
  storing : (chunk_addr metadata leaf : ℕ) → Pc
  get_called : (ptr : ℕ) → Pc
  reading : (ptr leaf : ℕ) → Pc
  found : (ptr metadata : ℕ) → Pc

abbrev pub store_leaf : Index → ℕ → ℕ → ℕ → Index
store_leaf s leaf l2 metadata = record {
  leaves = s.leaves;
  entries = update s.entries leaf (update (s.entries leaf) l2 metadata);
  mapped = s.mapped;
}

-- `alloc_internal_node`: the pages at `new_leaf` are zero
abbrev pub map_leaf : Index → ℕ → Index
map_leaf s new_leaf = record {
  leaves = s.leaves;
  entries = update s.entries new_leaf (λ l2. 0);
  mapped = update s.mapped new_leaf true;
}

abbrev pub unmap_leaf : Index → ℕ → Index
unmap_leaf s leaf = record {
  leaves = s.leaves;
  entries = s.entries;
  mapped = update s.mapped leaf false;
}

abbrev pub publish_leaf : Index → ℕ → ℕ → Index
publish_leaf s l1 leaf = record {
  leaves = update s.leaves l1 leaf;
  entries = s.entries;
  mapped = s.mapped;
}

-- One step of a thread; `answer` is what `mmap` gives, if the step asks it.
unfoldable pub advance : Option ℕ → Index → Pc → Index × Pc
advance answer s idle = (s, idle)
advance answer s (set_called chunk_addr metadata) =
    let leaf = s.leaves (l1_idx chunk_addr) in
    if leaf == 0
    then (if metadata == 0 then (s, idle) else (s, missing chunk_addr metadata))
    else (s, storing chunk_addr metadata leaf)
advance none s (missing chunk_addr metadata) = (s, idle)
advance (some new_leaf) s (missing chunk_addr metadata) =
    (map_leaf s new_leaf, publishing chunk_addr metadata new_leaf)
advance answer s (publishing chunk_addr metadata new_leaf) =
    let expected = s.leaves (l1_idx chunk_addr) in
    if expected == 0
    then (publish_leaf s (l1_idx chunk_addr) new_leaf, storing chunk_addr metadata new_leaf)
    else (unmap_leaf s new_leaf, storing chunk_addr metadata expected)
advance answer s (storing chunk_addr metadata leaf) =
    (store_leaf s leaf (l2_idx chunk_addr) metadata, idle)
advance answer s (get_called ptr) =
    let leaf = s.leaves (l1_idx ptr) in
    if leaf == 0 then (s, found ptr 0) else (s, reading ptr leaf)
advance answer s (reading ptr leaf) = (s, found ptr (s.entries leaf (l2_idx ptr)))
advance answer s (found ptr metadata) = (s, found ptr metadata)

pub record System : Type 0 where
  pub index : Index
  pub pc : ℕ → Pc

-- `mmap` answers with no address that is NULL or mapped.
abbrev pub FreshAnswer : Index → Option ℕ → Type 0
FreshAnswer s none = Unit
FreshAnswer s (some new_leaf) = (0 < new_leaf) × (s.mapped new_leaf ≡ false)

-- Thread `i` goes on, or, with no call under way, calls one of the functions.
pub data Step (i : ℕ) (s : System) : System → Type 0 where
  go :
      (answer : Option ℕ)
      → FreshAnswer s.index answer
      → Step i s (record {
        index = (advance answer s.index (s.pc i)).0;
        pc = update s.pc i (advance answer s.index (s.pc i)).1;
      })
  call_set :
      (chunk_addr metadata : ℕ)
      → s.pc i ≡ idle
      → Step i s (record { index = s.index; pc = update s.pc i (set_called chunk_addr metadata) })
  call_get :
      (ptr : ℕ)
      → s.pc i ≡ idle
      → Step i s (record { index = s.index; pc = update s.pc i (get_called ptr) })
  return_found :
      (ptr metadata : ℕ)
      → s.pc i ≡ found ptr metadata
      → Step i s (record { index = s.index; pc = update s.pc i idle })

-- after `lz_rtree_init`
abbrev pub init : System
init = record {
  index = record { leaves = λ l1. 0; entries = λ leaf l2. 0; mapped = λ leaf. false };
  pc = λ i. idle;
}

pub data Reach : System → Type 0 where
  start : Reach init
  later : {i : ℕ} {s t : System} → Reach s → Step i s t → Reach t

-- the index as the sequential functions see it
unfoldable pub root_of : Index → Root
root_of s l1 = if s.leaves l1 == 0 then none else some (s.entries (s.leaves l1))
