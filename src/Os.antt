-- ===== src/Os.antt =====
-- The operating system as the allocator sees it: what each call of `mmap` and `getcpu` answers is
-- given in advance, and the calls that map memory, give it back or advise about it are recorded.
use lzmalloc.Base.{
  ◌≡◌, refl, ℕ, ◌+◌, ◌&&◌, ◌||◌, not, Bool, false, leb, ltb, Option, none, some, List, [], ◌∷◌,
}

pub data OsCall : Type 0 where
  mmap : (answer : Option ℕ) (len : ℕ) → OsCall
  munmap : (addr len : ℕ) → OsCall
  madvise_hugepage : (addr len : ℕ) → OsCall
  madvise_dontneed : (addr len : ℕ) → OsCall

-- `none` is MAP_FAILED, or a failure of `getcpu`. The answer may depend on how many calls were
-- made before. The recorded calls stand latest first.
pub record Os : Type 0 where
  pub mmap_answer : ℕ → Option ℕ
  pub mmap_count : ℕ
  pub getcpu_answer : ℕ → Option ℕ
  pub getcpu_count : ℕ
  pub calls : List OsCall

-- what the next `mmap` answers
abbrev pub next_mmap : Os → Option ℕ
next_mmap o = o.mmap_answer o.mmap_count

-- `mmap` of `len` bytes of anonymous memory
unfoldable pub sys_mmap : ℕ → Os → Option ℕ × Os
sys_mmap len o = (
  next_mmap o,
  record o { mmap_count = o.mmap_count + 1; calls = mmap (next_mmap o) len ∷ o.calls },
)

pub sys_mmap_answer : (len : ℕ) (o : Os) → (sys_mmap len o).0 ≡ next_mmap o
unfolding sys_mmap
sys_mmap_answer len o = refl

unfoldable pub sys_getcpu : Os → Option ℕ × Os
sys_getcpu o = (o.getcpu_answer o.getcpu_count, record o { getcpu_count = o.getcpu_count + 1 })

unfoldable pub sys_call : OsCall → Os → Os
sys_call c o = record o { calls = c ∷ o.calls }

-- the byte at `p` is in one of the `len` bytes from `addr`
abbrev pub covers : ℕ → ℕ → ℕ → Bool
covers p addr len = leb addr p && ltb p (addr + len)

-- by these calls, the byte at `p` is mapped
abbrev pub is_mapped : ℕ → List OsCall → Bool
is_mapped p [] = false
is_mapped p (mmap none len ∷ cs) = is_mapped p cs
is_mapped p (mmap (some addr) len ∷ cs) = covers p addr len || is_mapped p cs
is_mapped p (munmap addr len ∷ cs) = not (covers p addr len) && is_mapped p cs
is_mapped p (madvise_hugepage addr len ∷ cs) = is_mapped p cs
is_mapped p (madvise_dontneed addr len ∷ cs) = is_mapped p cs
