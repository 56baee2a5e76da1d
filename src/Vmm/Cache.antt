-- ===== src/Vmm/Cache.antt =====
-- What the VMM promises: a stack of chunks for each node, of at most 32, and a stack behind them.
-- `Holds` says which stacks the linked lists of a memory stand for.
use lzmalloc.Base.{
  ℕ, zero, suc, ◌+◌, ◌-◌, ◌*◌, ◌/◌, ◌≤◌, ◌<◌, ◌≡◌, ◌≢◌, List, [], ◌∷◌, Option, none, some, true,
  false, mem, Chain, length, update, ltb, if◌then◌else◌,
}
use lzmalloc.Chunk.{chunk_magic}
use lzmalloc.Config.{max_numa_nodes, vmm_max_cached_chunks, extent_chunks, huge_page_size}
use lzmalloc.Memory.{World}

pub record Cache : Type 0 where
  pub local : ℕ → List ℕ
  pub global : List ℕ

-- The chunks of an extent at `base`, from chunk `i`, pushed one after the other.
unfoldable pub extent : ℕ → ℕ → ℕ → List ℕ → List ℕ
extent zero i base g = g
extent (suc left) i base g = extent left (i + 1) base ((base + i * huge_page_size) ∷ g)

-- `0` stands for no chunk
abbrev pub pop : List ℕ → ℕ × List ℕ
pop [] = (0, [])
pop (x ∷ xs) = (x, xs)

abbrev pub round_up : ℕ → ℕ
round_up a = (a + (huge_page_size - 1)) / huge_page_size * huge_page_size

-- the global stack, filled if it is empty from a new extent in the mapping at `raw`
abbrev pub refill : Option ℕ → List ℕ → List ℕ
refill fresh (x ∷ xs) = x ∷ xs
refill none [] = []
refill (some raw) [] = extent extent_chunks 0 (round_up raw) []

-- take from the node's stack, else from the global stack
abbrev pub take_global : Option ℕ → Cache → ℕ × Cache
take_global fresh c =
    let (chunk, rest) = pop (refill fresh c.global) in (chunk, record c { global = rest })

abbrev pub take : ℕ → Option ℕ → Cache → ℕ × Cache
take node fresh c = elim (c.local node) [
  | [] ↦ take_global fresh c
  | x ∷ xs ↦ (x, record c { local = update c.local node xs })
]

-- give to the node's stack while it holds fewer than 32, else to the global stack
abbrev pub give : ℕ → ℕ → Cache → Cache
give node chunk c =
    if ltb (length (c.local node)) vmm_max_cached_chunks
    then record c { local = update c.local node (chunk ∷ c.local node) }
    else record c { global = chunk ∷ c.global }

abbrev pub nexts : World → ℕ → ℕ
nexts w a = (w.headers a).next

pub record NotCached (c : Cache) (a : ℕ) : Type 0 where
  pub not_local : (i : ℕ) → i < max_numa_nodes → mem a (c.local i) ≡ false
  pub not_global : mem a c.global ≡ false

pub record Holds (w : World) (c : Cache) : Type 0 where
  pub local : (i : ℕ) → i < max_numa_nodes → Chain (nexts w) (w.pools i).free_chunks (c.local i)
  pub counted : (i : ℕ) → i < max_numa_nodes → (w.pools i).available_count ≡ length (c.local i)
  pub capped : (i : ℕ) → i < max_numa_nodes → length (c.local i) ≤ vmm_max_cached_chunks
  pub global : Chain (nexts w) w.global_free_chunks c.global
  pub apart :
      (i j a : ℕ)
      → i < max_numa_nodes
      → j < max_numa_nodes
      → i ≢ j
      → mem a (c.local i) ≡ true
      → mem a (c.local j) ≡ false
  pub apart_global :
      (i a : ℕ) → i < max_numa_nodes → mem a (c.local i) ≡ true → mem a c.global ≡ false
  pub home :
      (i a : ℕ)
      → i < max_numa_nodes
      → mem a (c.local i) ≡ true
      → ((w.headers a).node_id ≡ i) × ((w.headers a).magic ≡ chunk_magic)
