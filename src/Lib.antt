-- ===== src/Lib.antt =====
-- A model of lzmalloc, a memory allocator in C: its engines, its thread-local heaps and its public
-- interface, with what they guarantee. Paths are from the repository's root.
--
-- The program's parts and their files:
--   * Word (src/internal/common.h): the macros LZ_ALIGN_UP, LZ_ALIGN_DOWN and LZ_IS_POWER_OF_TWO on
--     64-bit words; Bits and its children hold the laws of the bits of a number.
--   * Config (CMakeLists.txt and the headers): the constants, for Linux at the default profile.
--   * Sizes (src/internal/sizes.h): lz_fls, lz_size_to_class, lz_class_to_size.
--   * Security (src/core/security.c, security.h): lz_security_init, lz_ptr_obfuscate.
--   * Chunk (src/core/chunk.h): the header of a chunk and lz_calc_checksum.
--   * Os: what the operating system answers, and the calls made to it. It stands for code that is
--     not in the repository.
--   * Rtree (src/core/rtree.c, rtree.h): lz_rtree_set, lz_rtree_clear, lz_rtree_get.
--     Rtree/Race has the set and the look-up of any number of threads at once, as a step relation.
--   * Memory: the memory as maps from addresses to structs, shared by all parts.
--   * Topology (src/internal/topology.c): lz_get_current_node, lz_topology_get_pool.
--   * Vmm (src/engines/vmm.c): lz_vmm_alloc_chunk, lz_vmm_free_chunk, lz_vmm_purge_all_caches.
--     Vmm/Cache is the specification: a stack of chunks for each node and one behind them.
--     Vmm/Locks has the spin locks, and Vmm/Threads the three functions as run by any number of
--     threads at once, whose sections interleave.
--   * Span (src/engines/span.c): the search for free pages; Span/Engine has lz_span_alloc and
--     lz_span_free_local, Span/Valid says what a well-formed span is, and
--     Span/Engine/Walk has the choice of a span without links, counts and fuel, and
--     Span/Engine/Active the list of the active spans of a thread. Span/Engine/Life goes from an
--     allocation to its free.
--   * Slab (src/engines/slab.c): lz_slab_create, lz_slab_destroy.
--   * Tlh (src/tlh/tlh.c): the thread-local heap: free lists, bins, batches for other threads and
--     the mailbox; Tlh/Alloc has lz_tlh_alloc, Tlh/Free has lz_tlh_free, and
--     Tlh/Mailbox has the flush, the reap and the remote free of any number of threads at once.
--   * Huge (src/hooks/lzmalloc.c): objects with a mapping of their own.
--   * Thread (src/hooks/lzmalloc.c): the heap of a thread from its first allocation to the list of
--     zombies, and lzmalloc_gc.
--   * Malloc (src/hooks/lzmalloc.c): lz_malloc, lz_free, lz_calloc, lz_realloc, lz_memalign,
--     lz_posix_memalign, lz_aligned_alloc, lz_valloc, lz_pvalloc, lz_malloc_usable_size.
--   * Hooks (src/hooks/posix_hooks.c): the functions that replace those of the C library, and the
--     bump allocator that serves them before the allocator is ready.
--   * Telemetry (src/internal/telemetry.c): the test of the environment, lz_itoa_fast,
--     lz_telemetry_init and lz_telemetry_cleanup.
--   * Startup (src/hooks/lzmalloc.c, posix_hooks.c): lz_system_init and lz_bootstrap_system.
--   * Tests: runs on concrete inputs.
-- lz_malloc routes a request by its size to Tlh, Span or Huge. Tlh takes slabs from Slab, and Slab
-- and Span take chunks from Vmm and register them with Rtree. lz_free finds the chunk of a pointer
-- through Rtree.
--
-- How the code is modelled: an operation is a function from the memory before to the memory after,
-- with its result. An address is a number and 0 is NULL. Arithmetic on machine words wraps, written
-- out as a remainder. A section under a spin lock is one step, and so is a loop that exchanges an
-- atomic head. Where threads run at once, a state has a program counter for each thread, a step is
-- a step of any one of them, and reachable states are those that steps lead to. A loop over a
-- linked list has fuel: the count of the pool plus one in Vmm/Purge, which is enough on a
-- well-formed pool, since that count is the length of the list; a parameter in Tlh and Thread, where
-- what is proved holds for every fuel, and in Span/Engine, where more fuel than there are active
-- spans is enough and the other theorems hold for every fuel. The loops over the 2 MB steps of a
-- mapping have one round for each step and one to find the end.
--
-- The loop of lz_itoa_fast has 10 rounds, the digits of the largest `int`.
--
-- Not modelled: the bytes of objects; the logger, whose LZ_FATAL is taken to return; the branches for
-- other systems than Linux.
pub mod Base
pub mod Bits
pub mod Word
pub mod Config
pub mod Sizes
pub mod Security
pub mod Chunk
pub mod Os
pub mod Rtree
pub mod Memory
pub mod Topology
pub mod Vmm
pub mod Span
pub mod Slab
pub mod Tlh
pub mod Huge
pub mod Thread
pub mod Malloc
pub mod Hooks
pub mod Telemetry
pub mod Startup
pub mod Tests
