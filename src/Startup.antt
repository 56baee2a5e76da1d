-- ===== src/Startup.antt =====
-- The start of the library: `lz_system_init` of lzmalloc.c, which runs the initialisers of the
-- components, and the constructor of posix_hooks.c, which then routes the hooks to the allocator.
pub mod Laws
use lzmalloc.Base.{
  ℕ, Bool, true, false, Option, none, some, List, [], ◌∷◌, ◌++◌, length, if◌then◌else◌,
}
use lzmalloc.Hooks.{Hooks}
use lzmalloc.Memory.{World}
use lzmalloc.Rtree.{rtree_init}
use lzmalloc.Security.{Entropy, security_init}
use lzmalloc.Telemetry.{
  Telemetry, ShmAnswers, ShmCall, telemetry_init, telemetry_key, equals_sign, strncmp_equal,
}
use lzmalloc.Thread.{Process}
use lzmalloc.Vmm.{vmm_init}

-- what the system gives the library at its start
pub record Environment : Type 0 where
  pub entropy : Entropy
  pub environ : Option (List (List ℕ))
  pub pid : ℕ
  pub shm : ShmAnswers

-- the hooks, and the globals of telemetry.c that no other component reads
pub record Library : Type 0 where
  pub hooks : Hooks
  pub shm_name : ℕ → ℕ
  pub shm_calls : List ShmCall

abbrev pub telemetry_of : Library → Telemetry
telemetry_of s = record {
  telemetry_matrix = s.hooks.process.telemetry_matrix;
  shm_name = s.shm_name;
  slots = s.hooks.process.world.slots;
  calls = s.shm_calls;
}

abbrev pub set_world : World → Library → Library
set_world w s = record s {
  hooks = record s.hooks { process = record s.hooks.process { world = w } };
}

abbrev pub set_telemetry : Telemetry → Library → Library
set_telemetry t s = record {
  hooks = record s.hooks {
    process = record s.hooks.process {
      telemetry_matrix = t.telemetry_matrix;
      world = record s.hooks.process.world { slots = t.slots };
    };
  };
  shm_name = t.shm_name;
  shm_calls = t.calls;
}

-- "LZMALLOC_TELEMETRY="
abbrev pub telemetry_entry : List ℕ
telemetry_entry = telemetry_key ++ equals_sign ∷ []

-- the loop of `lz_system_init` over the environment: whether it calls `lz_telemetry_init`
unfoldable pub finds_entry : List (List ℕ) → Bool
unfolding strncmp_equal
finds_entry [] = false
finds_entry (env ∷ envs) = if strncmp_equal 19 env telemetry_entry then true else finds_entry envs

abbrev pub wants_telemetry : Option (List (List ℕ)) → Bool
wants_telemetry none = false
wants_telemetry (some envs) = finds_entry envs

-- the secret, the VMM and the radix tree
unfoldable pub init_world : Entropy → World → World
unfolding security_init vmm_init rtree_init
init_world entropy w = record (vmm_init (record w { secret = security_init entropy w.secret })) {
  root = rtree_init;
}

-- `lz_system_init`; `none` is out of fuel
unfoldable pub system_init : Environment → Library → Option Library
unfolding finds_entry init_world telemetry_init
system_init e s =
    let s1 = set_world (init_world e.entropy s.hooks.process.world) s in
    if wants_telemetry e.environ
    then elim (telemetry_init e.environ e.pid e.shm (telemetry_of s1)) [
      | none ↦ none
      | some t ↦ some (set_telemetry t s1)
    ]
    else some s1

-- `lz_bootstrap_system`
unfoldable pub bootstrap_system : Environment → Library → Option Library
unfolding system_init
bootstrap_system e s = elim (system_init e s) [
  | none ↦ none
  | some s1 ↦ some (record s1 { hooks = record s1.hooks { ready = 1 } })
]
