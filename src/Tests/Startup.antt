-- ===== src/Tests/Startup.antt =====
-- The start of the library, with telemetry asked for, by the process 4217.
use lzmalloc.Base.{
  ℕ, ◌≤◌, ◌≡◌, ◌↔◌, ◌⊎◌, inl, inr, refl, arith, true, Option, none, some, List, [], ◌∷◌, ◌++◌,
}
use lzmalloc.Security.{Entropy}
use lzmalloc.Startup.{Environment, Library, bootstrap_system}
use lzmalloc.Startup.Laws.{IsStarted, bootstrap_system-IsStarted}
use lzmalloc.Telemetry.{
  Telemetry, ShmAnswers, telemetry_init, itoa_fast, has_env, telemetry_key, prefix_len,
}
use lzmalloc.Telemetry.Digits.{IsDecimal, itoa_fast-IsDecimal}
use lzmalloc.Telemetry.Environ.{IsDefined, has_env_iff}
use lzmalloc.Telemetry.Init.{IsInit, telemetry_init-IsInit}
use lzmalloc.Telemetry.Name.{telemetry_init_names}
use lzmalloc.Telemetry.Slots.{telemetry_get_slot-Apart, InMatrix, Apart}
use lzmalloc.Config.{max_telemetry_slots}
use lzmalloc.Thread.{Process, telemetry_get_slot}
use lzmalloc.Tests.World.{process0}

abbrev environ : Option (List (List ℕ))
environ = some ((80 ∷ 61 ∷ []) ∷ (telemetry_key ++ 61 ∷ 49 ∷ []) ∷ [])

abbrev granting : ShmAnswers
granting = record { fd = some 3; truncated = true; mapping = some 4096 }

abbrev silent : Telemetry
silent = record { telemetry_matrix = 0; shm_name = λ k. 0; slots = λ a. 7; calls = [] }

itoa_fast-IsDecimal_example :
    (r : ℕ × (ℕ → ℕ)) × (itoa_fast 4217 prefix_len (λ k. 1) ≡ some r)
    × IsDecimal 4217 prefix_len (λ k. 1) r
itoa_fast-IsDecimal_example = itoa_fast-IsDecimal 4217 prefix_len (λ k. 1) (omega arith)

has_env_iff_at : (has_env environ telemetry_key ≡ true) ↔ IsDefined environ telemetry_key
has_env_iff_at = has_env_iff environ telemetry_key (ground arith)

telemetry_init-IsInit_example :
    (t' : Telemetry) × (telemetry_init environ 4217 granting silent ≡ some t')
    × IsInit environ granting silent t'
telemetry_init-IsInit_example = telemetry_init-IsInit environ 4217 granting silent (omega arith)

initialised :
    (t' : Telemetry) × (telemetry_init environ 4217 granting silent ≡ some t')
    × IsInit environ granting silent t'
initialised = telemetry_init-IsInit environ 4217 granting silent (omega arith)

has_key : has_env environ telemetry_key ≡ true
has_key = (has_env_iff environ telemetry_key (ground arith)).1 (inr (inl (49 ∷ [], refl)))

telemetry_init_names_at : ◌≡◌ {A = ℕ} 4217 4217
telemetry_init_names_at =
    telemetry_init_names environ environ 4217 4217 granting granting silent silent initialised.0
      initialised.0 refl refl has_key has_key (omega arith) (omega arith) initialised.1
      initialised.1 refl

abbrev observed : Process
observed = record process0 { telemetry_matrix = 4096 }

telemetry_get_slot-Apart_at :
    ((telemetry_get_slot 7 observed ≡ 0) ↔ ((◌≡◌ {A = ℕ} 4096 0) ⊎ (max_telemetry_slots ≤ 7)))
    × ((telemetry_get_slot 7 observed ≡ 0) ⊎ InMatrix 4096 (telemetry_get_slot 7 observed))
    × ((telemetry_get_slot 7 observed ≡ 0)
        ⊎ (telemetry_get_slot 8 observed ≡ 0)
        ⊎ Apart (telemetry_get_slot 7 observed) (telemetry_get_slot 8 observed))
telemetry_get_slot-Apart_at = telemetry_get_slot-Apart 7 8 observed (omega arith) (omega arith)

abbrev entropy : Entropy
entropy = record {
  getrandom_count = none;
  getrandom_value = 0;
  urandom_fd = none;
  read_count = none;
  read_value = 0;
  time = 1700000000;
  pid = 4217;
  stack_addr = 140723000000000;
}

abbrev environment : Environment
environment = record { entropy = entropy; environ = environ; pid = 4217; shm = granting }

abbrev library : Library
library = record {
  hooks = record {
    base_heap = 2097152;
    base_offset = 640;
    exact_size = λ a. 24;
    ready = 0;
    process = process0;
  };
  shm_name = λ k. 0;
  shm_calls = [];
}

bootstrap_system-IsStarted_example :
    (s' : Library) × (bootstrap_system environment library ≡ some s')
    × IsStarted environment library s'
bootstrap_system-IsStarted_example =
    bootstrap_system-IsStarted environment library refl (omega arith)
