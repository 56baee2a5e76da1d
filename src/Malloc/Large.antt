-- ===== src/Malloc/Large.antt =====
-- The life of an object with a mapping of its own.
use lzmalloc.Base.{ℕ, ◌+◌, ◌*◌, ◌≤◌, ◌<◌, ◌≡◌, Option, none, some, [], ◌∷◌}
use lzmalloc.Config.{huge_page_size}
use lzmalloc.Memory.{World}
use lzmalloc.Os.{Os, next_mmap, OsCall}
use lzmalloc.Rtree.Index.{address_space}
use lzmalloc.Vmm.Cache.{round_up}
use lzmalloc.Word.{align_up, add64}

-- A request that the operating system can serve: the mapping starts above NULL, it and its leaves in
-- the radix tree are granted, and it ends in the address space of the tree.
pub record IsGranted (size raw : ℕ) (w : World) : Type 0 where
  pub not_null : 0 < raw
  pub mapping : next_mmap w.os ≡ some raw
  pub leaves : (j : ℕ) → (addr : ℕ) × (w.os.mmap_answer j ≡ some addr)
  pub fits : raw + size + 4 * huge_page_size ≤ address_space

-- the latest call to the operating system
abbrev pub last_call : Os → Option OsCall
last_call o = elim o.calls [ [] ↦ none | c ∷ cs ↦ some c ]

-- the length of the mapping
abbrev pub mapped : ℕ → ℕ
mapped size = align_up (add64 128 size) huge_page_size

module _ (size raw : ℕ) (w : World) (g : IsGranted size raw w) where
  abbrev total : ℕ
  total = mapped size

  abbrev base : ℕ
  base = round_up raw
