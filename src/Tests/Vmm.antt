-- ===== src/Tests/Vmm.antt =====
-- The VMM on the small memory.
use lzmalloc.Base.{ℕ, ◌+◌, ◌*◌, ◌≤◌, ◌%◌, ◌≡◌, ◌⊎◌, refl, arith, [], not, leb, ltb, ◌&&◌}
use lzmalloc.Config.{huge_page_size, extent_size}
use lzmalloc.Os.{next_mmap}
use lzmalloc.Tests.World.{world0, os0, mapped_at}
use lzmalloc.Topology.{get_current_node}
use lzmalloc.Vmm.{
  vmm_alloc_chunk, vmm_free_chunk, vmm_purge_all_caches, trim_extent, extent_request, alloc_global,
  pop_global, sys_alloc_extent, push_chunks,
}
use lzmalloc.Word.{align_up}
use lzmalloc.Vmm.Alloc.{IsIsolated, vmm_alloc_chunk_refines}
use lzmalloc.Vmm.Fresh.{MapsFresh}
use lzmalloc.Vmm.Cache.{Cache, Holds, NotCached, take, give}
use lzmalloc.Vmm.Free.{InUse, vmm_free_chunk_refines}
use lzmalloc.Vmm.Purge.{IsPurged, vmm_purge_all_caches-IsPurged}
use lzmalloc.Vmm.Trim.{trim_extent_exact, unmapped}

abbrev empty_cache : Cache
empty_cache = record { local = λ i. []; global = [] }

nothing_cached : (a : ℕ) → NotCached empty_cache a
nothing_cached a = record { not_local = λ i lt. refl; not_global = refl }

world0-Holds : Holds world0 empty_cache
world0-Holds = record {
  local = λ i lt. refl;
  counted = λ i lt. refl;
  capped = λ i lt. omega arith;
  global = refl;
  apart = λ i j a li lj ne m. absurd (ground (arith, m));
  apart_global = λ i a lt m. absurd (ground (arith, m));
  home = λ i a lt m. absurd (ground (arith, m));
}

world0-MapsFresh : MapsFresh world0 empty_cache
world0-MapsFresh raw e =
    let at : mapped_at ≡ raw = ground (arith, e) in
    record { not_null = omega arith; fits = omega arith; unused = λ p lo hi. nothing_cached p }

-- the first chunk of a thread comes from a new extent
vmm_alloc_chunk_refines_example :
    ((vmm_alloc_chunk world0).0
      ≡ (take (get_current_node world0).0 (next_mmap world0.os) empty_cache).0)
    × Holds
        (vmm_alloc_chunk world0).1
        (take (get_current_node world0).0 (next_mmap world0.os) empty_cache).1
    × (((vmm_alloc_chunk world0).0 ≡ 0)
        ⊎ IsIsolated
            (vmm_alloc_chunk world0).1
            (take (get_current_node world0).0 (next_mmap world0.os) empty_cache).1
            (vmm_alloc_chunk world0).0)
vmm_alloc_chunk_refines_example =
    vmm_alloc_chunk_refines world0 empty_cache world0-Holds world0-MapsFresh

abbrev some_chunk : ℕ
some_chunk = 6291456

some_chunk-InUse : InUse world0 empty_cache some_chunk
some_chunk-InUse = record {
  not_null = ground arith;
  not_cached = nothing_cached some_chunk;
  node_lt = omega arith;
  magic = refl;
}

vmm_free_chunk_refines_example :
    Holds (vmm_free_chunk some_chunk world0) (give 1 some_chunk empty_cache)
vmm_free_chunk_refines_example =
    vmm_free_chunk_refines world0 empty_cache some_chunk world0-Holds some_chunk-InUse

vmm_purge_all_caches-IsPurged_example :
    IsPurged
      (vmm_purge_all_caches (vmm_free_chunk some_chunk world0))
      (give 1 some_chunk empty_cache)
vmm_purge_all_caches-IsPurged_example =
    vmm_purge_all_caches-IsPurged (vmm_free_chunk some_chunk world0) (give 1 some_chunk empty_cache)
      (vmm_free_chunk_refines world0 empty_cache some_chunk world0-Holds some_chunk-InUse)

-- the chunks of the first extent, from the mapping at 4096
first_chunk : (vmm_alloc_chunk world0).0 ≡ 2097152 * 32
unfolding vmm_alloc_chunk get_current_node alloc_global pop_global sys_alloc_extent push_chunks
    trim_extent align_up
first_chunk = refl

trim_extent_exact_example :
    ((trim_extent mapped_at os0).0 % huge_page_size ≡ 0)
    × (mapped_at ≤ (trim_extent mapped_at os0).0)
    × ((trim_extent mapped_at os0).0 + extent_size ≤ mapped_at + extent_request)
    × (unmapped 5000 (trim_extent mapped_at os0).1.calls ≡ (
        leb mapped_at 5000
        && ltb 5000 (mapped_at + extent_request)
        && not (
            leb (trim_extent mapped_at os0).0 5000
            && ltb 5000 ((trim_extent mapped_at os0).0 + extent_size))))
trim_extent_exact_example = trim_extent_exact mapped_at 5000 os0 (omega arith)
