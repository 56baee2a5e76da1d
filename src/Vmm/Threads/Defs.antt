-- ===== src/Vmm/Threads/Defs.antt =====
-- What holds between the steps: each chunk is in one list, in use, or with one thread.
use lzmalloc.Base.{ℕ, ◌+◌, ◌%◌, ◌≤◌, ◌<◌, ◌≡◌, ◌≢◌, Bool, true, false, not, ◌&&◌, ◌==◌, mem, Chain}
use lzmalloc.Chunk.{chunk_magic}
use lzmalloc.Config.{max_numa_nodes, extent_size, huge_page_size}
use lzmalloc.Memory.{World}
use lzmalloc.Word.{word_mod}
use lzmalloc.Vmm.Cache.{Cache, Holds, NotCached, nexts}
use lzmalloc.Vmm.Threads.{
  Pc, node_empty, extending, pushing, refilled, allocated, free_called, spilling, draining, System,
  in_extent,
}

-- the chunks that a thread has taken and not yet put anywhere
abbrev pub in_hand : Pc → ℕ → Bool
in_hand (pushing node base) a = in_extent base a
in_hand (allocated chunk) a = not (chunk == 0) && chunk == a
in_hand (free_called chunk) a = chunk == a
in_hand (spilling chunk) a = chunk == a
in_hand (draining node chunk left) a = mem a left
in_hand _ a = false

-- a header as `lz_vmm_alloc_chunk` leaves it
abbrev pub IsLive : World → ℕ → Type 0
IsLive w a =
    (a ≢ 0) × ((w.headers a).node_id < max_numa_nodes) × ((w.headers a).magic ≡ chunk_magic)

-- what a thread knows of the memory
abbrev pub Local : World → Pc → Type 0
Local w (node_empty node) = node < max_numa_nodes
Local w (extending node) = node < max_numa_nodes
Local w (pushing node base) =
    (node < max_numa_nodes)
    × (0 < base)
    × (base + extent_size ≤ word_mod)
    × (base % huge_page_size ≡ 0)
Local w (refilled node) = node < max_numa_nodes
Local w (allocated chunk) = chunk ≢ 0 → IsLive w chunk
Local w (free_called chunk) = IsLive w chunk
Local w (spilling chunk) = IsLive w chunk
Local w (draining node chunk left) = Chain (nexts w) chunk left
Local w _ = Unit

pub record Inv (c : Cache) (s : System) : Type 0 where
  pub holds : Holds s.world c
  pub local : (i : ℕ) → Local s.world (s.pc i)
  pub hand : (i a : ℕ) → in_hand (s.pc i) a ≡ true → NotCached c a × (s.in_use a ≡ false)
  pub apart : (i j a : ℕ) → in_hand (s.pc i) a ≡ true → in_hand (s.pc j) a ≡ true → i ≡ j
  pub used : (a : ℕ) → s.in_use a ≡ true → NotCached c a × IsLive s.world a
  pub unmapped :
      (a : ℕ)
      → s.mapped a ≡ false
      → NotCached c a × (s.in_use a ≡ false) × ((i : ℕ) → in_hand (s.pc i) a ≡ false)
