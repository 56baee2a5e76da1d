-- ===== src/Topology.antt =====
-- topology.c: the NUMA node of the running thread, and the chunk pool of each node.
use lzmalloc.Base.{
  ℕ, zero, suc, ◌+◌, ◌<◌, ◌≡◌, arith, none, some, ltb, leb, if◌then◌else◌, update, Option-cases,
  inl, inr,
}
use lzmalloc.Config.{max_numa_nodes}
use lzmalloc.Memory.{Pool, World}
use lzmalloc.Os.{sys_getcpu}

-- the loop of `lz_topology_init` from index `i`
unfoldable pub init_pools : ℕ → ℕ → (ℕ → Pool) → ℕ → Pool
init_pools zero i pools = pools
init_pools (suc left) i pools =
    init_pools left (i + 1) (update pools i (record { free_chunks = 0; available_count = 0 }))

-- `lz_topology_init`
unfoldable pub topology_init : World → World
unfolding init_pools
topology_init w = record w { pools = init_pools max_numa_nodes 0 w.pools }

-- `lz_topology_get_node_count`; nothing writes `g_numa_node_count`
abbrev pub topology_get_node_count : ℕ
topology_get_node_count = 1

-- `lz_get_current_node`, on Linux
unfoldable pub get_current_node : World → ℕ × World
unfolding sys_getcpu
get_current_node w =
    let (answer, o) = sys_getcpu w.os in
    let w' = record w { os = o } in
    elim answer [
      | none ↦ (0, w')
      | some node ↦ if ltb node max_numa_nodes then (node, w') else (0, w')
    ]

-- `lz_topology_get_pool`: the index of the pool
unfoldable pub topology_get_pool : ℕ → ℕ
topology_get_pool node_id = if leb max_numa_nodes node_id then 0 else node_id

pub get_current_node-lt : (w : World) → (get_current_node w).0 < max_numa_nodes
unfolding get_current_node
get_current_node-lt w = ground arith

pub topology_get_pool-lt : (i : ℕ) → topology_get_pool i < max_numa_nodes
unfolding topology_get_pool
topology_get_pool-lt i = ground arith

pub topology_get_pool_self : (i : ℕ) → i < max_numa_nodes → topology_get_pool i ≡ i
unfolding topology_get_pool
topology_get_pool_self i h = ground arith

-- asking for the node changes only the operating system's side
pub get_current_node_world :
    (w : World) → (get_current_node w).1 ≡ record w { os = (sys_getcpu w.os).1 }
unfolding get_current_node
get_current_node_world w = elim (Option-cases (sys_getcpu w.os).0) [
  | inl e ↦ rw (e, get_current_node)
  | inr (node, e) ↦ rw (e, get_current_node) (ground arith)
]
