-- ===== src/Rtree/Laws.antt =====
-- The index is a map from 2 MB chunks to headers.
use lzmalloc.Base.{ℕ, ◌<◌, ◌≡◌, ◌⊎◌, inl, inr, arith, some, ◌==◌, if◌then◌else◌, Bool-cases, ==_iff}
use lzmalloc.Os.{Os, next_mmap}
use lzmalloc.Rtree.{Root, Leaf, block_num, l1_idx, rtree_set, rtree_get}
use lzmalloc.Rtree.Index.{address_space, l1_idx-l2_idx, same_block}

-- A store is possible: the leaf is there, or can be mapped, or NULL is stored.
abbrev pub CanStore : ℕ → ℕ → Root × Os → Type 0
CanStore a m (root, o) =
    ((leaf : Leaf) × (root (l1_idx a) ≡ some leaf))
    ⊎ ((m ≡ 0) ⊎ ((addr : ℕ) × (next_mmap o ≡ some addr)))

-- After `lz_rtree_set` a look-up gives the new header for every address of the same 2 MB chunk and
-- what it gave before for every other address. The addresses are below `2 ^ 48`, and the leaf
-- exists, or the operating system can map it, or the new entry is NULL.
pub rtree_get-rtree_set :
    (a m p : ℕ) (s : Root × Os)
    → a < address_space
    → p < address_space
    → CanStore a m s
    → rtree_get p (rtree_set a m s).0 ≡ (if block_num a == block_num p then m else rtree_get p s.0)
unfolding rtree_get rtree_set
rtree_get-rtree_set a m p (root, o) ha hp can = elim (Bool-cases (block_num a == block_num p)) [
  | inl e ↦ let (e1, e2) = same_block a p ((==_iff _ _).0 e) in ground (arith, e1, e2)
  | inr e ↦ ground (arith, l1_idx-l2_idx a p ha hp)
]
