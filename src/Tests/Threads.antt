-- ===== src/Tests/Threads.antt =====
-- A thread that takes the first chunk of the first extent, while another waits to free.
use lzmalloc.Base.{
  ℕ, ◌≡◌, ◌≢◌, refl, arith, Bool, false, Option, none, some, ◌==◌, if◌then◌else◌, update,
}
use lzmalloc.Os.{next_mmap, sys_mmap}
use lzmalloc.Tests.World.{world0, os0}
use lzmalloc.Topology.{get_current_node}
use lzmalloc.Vmm.{
  vmm_alloc_chunk, vmm_free_chunk, trim_extent, pop_global, push_chunks, push_global,
}
use lzmalloc.Word.{align_up}
use lzmalloc.Vmm.Cache.{Cache, Holds, NotCached}
use lzmalloc.Vmm.Threads.{
  idle, alloc_called, allocated, free_called, System, IsStart, IsNew, go, call_alloc, Reach, start,
  later, advance, advanced, map_extent,
}
use lzmalloc.Vmm.Threads.Alone.{run, run-vmm_alloc_chunk}
use lzmalloc.Vmm.Threads.Conserved.{IsConserved, no_chunk_lost}
use lzmalloc.Vmm.Threads.Defs.{in_hand, IsLive}
use lzmalloc.Vmm.Threads.Safety.{no_chunk_twice}

-- one mapping, and no memory behind it
abbrev once : ℕ → Option ℕ
once i = if i == 0 then some 4096 else none

abbrev begin : System
begin = record {
  world = record world0 { os = record os0 { mmap_answer = once } };
  pc = λ i. idle;
  in_use = λ a. false;
  mapped = λ a. false;
}

begin-IsStart : IsStart begin
begin-IsStart = record {
  idle = λ i. refl;
  none_in_use = λ a. refl;
  none_mapped = λ a. refl;
  no_local = λ i lt. (refl, refl);
  no_global = refl;
}

record Traced : Type 0 where
  last : System
  reach : Reach last

abbrev turn :
    (x : Traced) (i : ℕ)
    → ((raw : ℕ) → next_mmap x.last.world.os ≡ some raw → IsNew x.last.mapped raw)
    → Traced
turn x i new = record { last = advanced i x.last; reach = later {i = i} x.reach (go new) }

abbrev called : Traced
called = record {
  last = record begin { pc = update begin.pc 1 alloc_called };
  reach = later {i = 1} (start begin-IsStart) (call_alloc refl);
}

first_mapping : (raw : ℕ) → once 0 ≡ some raw → IsNew (λ a. false) raw
first_mapping raw e = record {
  not_null = ground (arith, e);
  fits = ground (arith, e);
  unmapped = λ a lo hi. refl;
}

spent : (mapped : ℕ → Bool) (raw : ℕ) → ◌≡◌ {A = Option ℕ} none (some raw) → IsNew mapped raw
spent mapped raw e = absurd (ground (arith, e))

-- the extent is mapped
abbrev before_push : Traced
unfolding advance get_current_node map_extent trim_extent pop_global sys_mmap
before_push = turn (turn (turn called 1 first_mapping) 1 first_mapping) 1 first_mapping

-- its chunks are on the global list, and one of them is taken
abbrev popped : Traced
unfolding advance get_current_node map_extent trim_extent pop_global push_chunks push_global
    sys_mmap align_up
popped = turn (turn before_push 1 (spent _)) 1 (spent _)

no_chunk_twice_example :
    (popped.last.in_use 67108864 ≡ false)
    × ((j : ℕ) → 1 ≢ j → in_hand (popped.last.pc j) 67108864 ≡ false)
    × ((c : Cache) × Holds popped.last.world c × NotCached c 67108864)
    × IsLive popped.last.world 67108864
unfolding advance get_current_node map_extent trim_extent pop_global push_chunks push_global
    sys_mmap align_up
no_chunk_twice_example = no_chunk_twice popped.reach 1 67108864 refl (omega arith)

no_chunk_lost_example : IsConserved popped.last
no_chunk_lost_example = no_chunk_lost popped.reach

run-vmm_alloc_chunk_at :
    (run 5 (begin.world, alloc_called)
      ≡ ((vmm_alloc_chunk begin.world).1, allocated (vmm_alloc_chunk begin.world).0))
    × (run 2 (begin.world, free_called 2097152) ≡ (vmm_free_chunk 2097152 begin.world, idle))
run-vmm_alloc_chunk_at = run-vmm_alloc_chunk begin.world 2097152
