-- ===== src/Startup/Laws.antt =====
-- The state that the start of the library leaves.
use lzmalloc.Base.{
  ℕ, zero, suc, ◌+◌, ◌≤◌, ◌<◌, ◌^◌, ◌≡◌, ◌≢◌, refl, arith, false, not, ◌&&◌, ◌||◌, Option, none,
  some, List, [], ◌∷◌, ◌==◌, Bool-cases, inl, inr, ap, ◌∙◌, sym, ==_iff, update_ne,
}
use lzmalloc.Config.{max_numa_nodes}
use lzmalloc.Memory.{World, Pool}
use lzmalloc.Rtree.{rtree_get, rtree_init}
use lzmalloc.Security.{Entropy}
use lzmalloc.Security.Laws.{security_init-ne-zero}
use lzmalloc.Startup.{
  Environment, Library, telemetry_of, set_world, set_telemetry, finds_entry, wants_telemetry,
  init_world, system_init, bootstrap_system,
}
use lzmalloc.Telemetry.{has_env, any_env, telemetry_key, equals_sign}
use lzmalloc.Telemetry.Environ.{NoNul, strncmp_equal-snoc}
use lzmalloc.Telemetry.Init.{telemetry_init-IsInit, granted}
use lzmalloc.Topology.{topology_init, init_pools}
use lzmalloc.Vmm.{vmm_init}
use lzmalloc.Vmm.Cache.{Cache, Holds}

telemetry_key-NoNul : NoNul telemetry_key
telemetry_key-NoNul = ground arith

finds_entry-any_env : (envs : List (List ℕ)) → finds_entry envs ≡ any_env envs telemetry_key
unfolding finds_entry any_env
finds_entry-any_env [] = refl
finds_entry-any_env (env ∷ envs) =
    rw
      (
        strncmp_equal-snoc env telemetry_key equals_sign telemetry_key-NoNul (omega arith),
        finds_entry-any_env envs,
      )
      refl

-- `lz_system_init` turns to telemetry exactly when the test of the environment in
-- `lz_telemetry_init` itself succeeds.
pub wants_telemetry-has_env :
    (environ : Option (List (List ℕ))) → wants_telemetry environ ≡ has_env environ telemetry_key
unfolding has_env
wants_telemetry-has_env none = refl
wants_telemetry-has_env (some envs) = finds_entry-any_env envs

abbrev empty_pool : Pool
empty_pool = record { free_chunks = 0; available_count = 0 }

init_pools_frame : (left i j : ℕ) (pools : ℕ → Pool) → j < i → init_pools left i pools j ≡ pools j
unfolding init_pools
init_pools_frame zero i j pools h = refl
init_pools_frame (suc left) i j pools h =
    init_pools_frame left (i + 1) j _ (omega arith) ∙ update_ne pools i j _ (omega arith)

init_pools_at :
    (left i j : ℕ) (pools : ℕ → Pool)
    → i ≤ j
    → j < i + left
    → init_pools left i pools j ≡ empty_pool
unfolding init_pools
init_pools_at zero i j pools h lt = absurd (omega arith)
init_pools_at (suc left) i j pools h lt = elim (Bool-cases (i == j)) [
  | inl e ↦
      let same : i ≡ j = (==_iff i j).0 e in
      init_pools_frame left (i + 1) j _ (omega (arith, same)) ∙ rw e refl
  | inr e ↦ init_pools_at left (i + 1) j _ (ground (arith, e)) (omega arith)
]

-- the caches of the VMM at the start
abbrev pub no_chunks : Cache
no_chunks = record { local = λ i. []; global = [] }

-- What the start of the library makes of `s`.
pub record IsStarted (e : Environment) (s s' : Library) : Type 0 where
  pub ready : s'.hooks.ready ≡ 1
  pub secret : s'.hooks.process.world.secret ≢ 0
  pub no_header : (ptr : ℕ) → rtree_get ptr s'.hooks.process.world.root ≡ 0
  pub caches : Holds s'.hooks.process.world no_chunks
  pub telemetry : not (s'.hooks.process.telemetry_matrix == 0) ≡ (
      not (s.hooks.process.telemetry_matrix == 0)
      || (has_env e.environ telemetry_key && granted e.shm))
  pub bump :
      (s'.hooks.base_heap ≡ s.hooks.base_heap)
      × (s'.hooks.base_offset ≡ s.hooks.base_offset)
      × (s'.hooks.exact_size ≡ s.hooks.exact_size)

init_world-Holds :
    (entropy : Entropy) (w : World)
    → w.global_free_chunks ≡ 0
    → Holds (init_world entropy w) no_chunks
unfolding init_world vmm_init topology_init
init_world-Holds entropy w none_free = record {
  local = λ i lt.
      ap (λ (p : Pool). p.free_chunks)
        (init_pools_at max_numa_nodes 0 i w.pools (omega arith) (omega arith));
  counted = λ i lt.
      ap (λ (p : Pool). p.available_count)
        (init_pools_at max_numa_nodes 0 i w.pools (omega arith) (omega arith));
  capped = λ i lt. omega arith;
  global = none_free;
  apart = λ i j a hi hj ne m. refl;
  apart_global = λ i a hi m. refl;
  home = λ i a hi m. absurd (ground (arith, m));
}

init_world_lem :
    (entropy : Entropy) (w : World)
    → ((init_world entropy w).secret ≢ 0)
      × ((ptr : ℕ) → rtree_get ptr (init_world entropy w).root ≡ 0)
unfolding init_world vmm_init topology_init rtree_get rtree_init
init_world_lem entropy w = ((security_init-ne-zero entropy entropy w.secret).0, λ ptr. refl)

system_init-IsStarted :
    (e : Environment) (s : Library)
    → s.hooks.process.world.global_free_chunks ≡ 0
    → e.pid < 2 ^ 31
    → (s' : Library) × (system_init e s ≡ some s')
      × IsStarted e s (record s' { hooks = record s'.hooks { ready = 1 } })
unfolding system_init
system_init-IsStarted e s none_free small = elim (Bool-cases (wants_telemetry e.environ)) [
  | inr unwanted ↦
      let unset : has_env e.environ telemetry_key ≡ false =
        sym (wants_telemetry-has_env e.environ) ∙ unwanted in
      (
        s1,
        rw unwanted refl,
        record {
          ready = refl;
          secret = known.0;
          no_header = known.1;
          caches = held;
          telemetry = ground (arith, unset);
          bump = (refl, refl, refl);
        },
      )
  | inl wanted ↦
      let (t, q, i) = telemetry_init-IsInit e.environ e.pid e.shm (telemetry_of s1) small in
      (
        set_telemetry t s1,
        rw (wanted, q) refl,
        record {
          ready = refl;
          secret = known.0;
          no_header = known.1;
          caches = record {
            local = held.local;
            counted = held.counted;
            capped = held.capped;
            global = held.global;
            apart = held.apart;
            apart_global = held.apart_global;
            home = held.home;
          };
          telemetry = i.on;
          bump = (refl, refl, refl);
        },
      )
]
  where
    w : World
    w = init_world e.entropy s.hooks.process.world

    s1 : Library
    s1 = set_world w s

    known : (w.secret ≢ 0) × ((ptr : ℕ) → rtree_get ptr w.root ≡ 0)
    known = init_world_lem e.entropy s.hooks.process.world

    held : Holds w no_chunks
    held = init_world-Holds e.entropy s.hooks.process.world none_free

-- The constructor `lz_bootstrap_system` returns, for a process id below 2^31, and the library is
-- then ready: the hooks go to the allocator, the secret is not 0, no address has a header in the
-- radix tree, the lists of the VMM hold no chunk, and telemetry is on exactly when it was or the
-- environment sets LZMALLOC_TELEMETRY and the system grants the file. The heap of the bootstrap is
-- kept. The global list of chunks is empty before, as it is in a new process.
pub bootstrap_system-IsStarted :
    (e : Environment) (s : Library)
    → s.hooks.process.world.global_free_chunks ≡ 0
    → e.pid < 2 ^ 31
    → (s' : Library) × (bootstrap_system e s ≡ some s') × IsStarted e s s'
unfolding bootstrap_system
bootstrap_system-IsStarted e s none_free small =
    let (s', q, started) = system_init-IsStarted e s none_free small in
    (_, rw (q, bootstrap_system) refl, started)
