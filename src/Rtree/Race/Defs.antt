-- ===== src/Rtree/Race/Defs.antt =====
-- What holds between the steps of `lz_rtree_set`: a thread that stores or reads holds the leaf of
-- the root, and a leaf of its own to publish is zero and nowhere else.
use lzmalloc.Base.{ℕ, ◌<◌, ◌≡◌, ◌≢◌, true}
use lzmalloc.Rtree.{l1_idx}
use lzmalloc.Rtree.Race.{Index, Pc, set_called, missing, publishing, storing, reading}

-- the leaf of its own that a thread is about to publish, or 0
abbrev pub own_leaf : Pc → ℕ
own_leaf (publishing a m leaf) = leaf
own_leaf _ = 0

-- the address that a store in progress is for
abbrev pub set_addr : Pc → ℕ
set_addr (storing chunk_addr metadata leaf) = chunk_addr
set_addr (publishing chunk_addr metadata leaf) = chunk_addr
set_addr (missing chunk_addr metadata) = chunk_addr
set_addr (set_called chunk_addr metadata) = chunk_addr
set_addr _ = 0

-- what the locals of a thread say of the shared index
abbrev pub Local : Index → Pc → Type 0
Local s (missing a m) = 0 < m
Local s (publishing a m leaf) = (0 < leaf) × (s.mapped leaf ≡ true)
Local s (storing a m leaf) = (0 < leaf) × (s.leaves (l1_idx a) ≡ leaf)
Local s (reading p leaf) = (0 < leaf) × (s.leaves (l1_idx p) ≡ leaf)
Local s _ = Unit

pub record Inv (s : Index) (pc : ℕ → Pc) : Type 0 where
  pub rooted : (l1 : ℕ) → 0 < s.leaves l1 → s.mapped (s.leaves l1) ≡ true
  pub distinct : (k l : ℕ) → 0 < s.leaves k → s.leaves k ≡ s.leaves l → k ≡ l
  pub local : (i : ℕ) → Local s (pc i)
  pub zeros : (i l2 : ℕ) → 0 < own_leaf (pc i) → s.entries (own_leaf (pc i)) l2 ≡ 0
  pub unpublished : (i l1 : ℕ) → 0 < own_leaf (pc i) → s.leaves l1 ≢ own_leaf (pc i)
  pub apart : (i j : ℕ) → 0 < own_leaf (pc i) → own_leaf (pc i) ≡ own_leaf (pc j) → i ≡ j
