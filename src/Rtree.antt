-- ===== src/Rtree.antt =====
-- rtree.c and rtree.h: the two-level index from chunk addresses to chunk headers. A leaf and the
-- root are maps from indices; an entry of 0 is NULL, and so is a missing leaf.
pub mod Index
pub mod Laws
pub mod Race
use lzmalloc.Base.{◌*◌, ◌^◌, ℕ, bit_and, Option, none, some, ◌==◌, if◌then◌else◌, update}
use lzmalloc.Config.{chunk_shift, rtree_l1_mask, rtree_l2_bits, rtree_l2_mask}
use lzmalloc.Os.{Os, sys_mmap}
use lzmalloc.Word.{◌>>>◌}

abbrev pub Leaf : Type 0
Leaf = ℕ → ℕ

abbrev pub Root : Type 0
Root = ℕ → Option Leaf

unfoldable pub block_num : ℕ → ℕ
block_num addr = addr >>> chunk_shift

unfoldable pub l2_idx : ℕ → ℕ
unfolding block_num
l2_idx addr = bit_and (block_num addr) rtree_l2_mask

unfoldable pub l1_idx : ℕ → ℕ
unfolding block_num
l1_idx addr = bit_and (block_num addr >>> rtree_l2_bits) rtree_l1_mask

-- `lz_rtree_init`: its loop stores NULL in every entry
unfoldable pub rtree_init : Root
rtree_init i = none

-- `sizeof(lz_rtree_leaf_t)`: pointers of 8 bytes
abbrev pub leaf_size : ℕ
leaf_size = 8 * 2 ^ rtree_l2_bits

-- `alloc_internal_node`: fresh pages are zero, that is, a leaf of NULL entries
unfoldable pub alloc_internal_node : Os → Option Leaf × Os
unfolding sys_mmap
alloc_internal_node o =
    let (answer, o') = sys_mmap leaf_size o in
    elim answer [ none ↦ (none, o') | some addr ↦ (some (λ i. 0), o') ]

abbrev pub store_entry : Root → ℕ → Leaf → ℕ → ℕ → Root
store_entry root l1 leaf l2 metadata = update root l1 (some (update leaf l2 metadata))

-- `lz_rtree_set`
unfoldable pub rtree_set : ℕ → ℕ → Root × Os → Root × Os
unfolding alloc_internal_node
rtree_set chunk_addr metadata (root, o) =
    let l1 = l1_idx chunk_addr in
    let l2 = l2_idx chunk_addr in
    elim (root l1) [
      | some leaf ↦ (store_entry root l1 leaf l2 metadata, o)
      | none ↦
          if metadata == 0
          then (root, o)
          else let (new_leaf, o') = alloc_internal_node o in
            elim new_leaf [
              | none ↦ (root, o')
              | some leaf ↦ (store_entry root l1 leaf l2 metadata, o')
            ]
    ]

-- `lz_rtree_clear`
unfoldable pub rtree_clear : ℕ → Root × Os → Root × Os
unfolding rtree_set
rtree_clear chunk_addr s = rtree_set chunk_addr 0 s

-- `lz_rtree_get`
unfoldable pub rtree_get : ℕ → Root → ℕ
rtree_get ptr root = elim (root (l1_idx ptr)) [ none ↦ 0 | some leaf ↦ leaf (l2_idx ptr) ]
