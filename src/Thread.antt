-- ===== src/Thread.antt =====
-- lzmalloc.c: the life of a thread's heap, from the first allocation to the list of zombies and back.
-- `Process` adds the globals of lzmalloc.c and telemetry.c to the memory, as one thread sees them:
-- `tls_tlh_ptr` is the heap of the running thread, 0 for none. A section under the zombie lock is
-- one step. `telemetry_matrix` is 0 while telemetry is off.
pub mod Zombies
use lzmalloc.Base.{
  ◌/◌, ℕ, zero, suc, ◌+◌, ◌*◌, ◌-◌, ◌%◌, Option, none, some, ◌==◌, ◌||◌, leb, ltb, if◌then◌else◌,
}
use lzmalloc.Config.{max_size_classes, max_telemetry_slots, thread_slot_base_idx}
use lzmalloc.Memory.{Tlh, World, set_tlh}
use lzmalloc.Os.{sys_mmap}
use lzmalloc.Tlh.{flush_outgoing_batch, tlh_init, reap}
use lzmalloc.Vmm.{vmm_purge_all_caches}
use lzmalloc.Word.{u32, add64, sub64}

pub record Process : Type 0 where
  pub world : World
  pub tls_tlh_ptr : ℕ
  pub zombie_tlhs : ℕ
  pub thread_counter : ℕ
  pub telemetry_matrix : ℕ

-- `lz_telemetry_get_slot`: the slots are 64 bytes each, and 0 is NULL
unfoldable pub telemetry_get_slot : ℕ → Process → ℕ
telemetry_get_slot index p =
    if p.telemetry_matrix == 0 || leb max_telemetry_slots index
    then 0
    else add64 p.telemetry_matrix (64 * index)

-- `lz_resurrect_zombie`
unfoldable pub resurrect_zombie : Process → ℕ × Process
resurrect_zombie p =
    let head = p.zombie_tlhs in
    let t = p.world.tlhs head in
    if head == 0 then (0, p) else (
      head,
      record p {
        world = set_tlh head (record t { next_zombie = 0 }) p.world;
        zombie_tlhs = t.next_zombie;
      },
    )

-- the rest of the byte counts, given to the counter when the thread ends
unfoldable pub settle_counts : ℕ → World → World
settle_counts tlh w =
    let t = w.tlhs tlh in
    let slot = t.stat_slot in
    let w1 =
      if ltb 0 t.local_bytes_alloc_batch
      then record w {
        slots = λ i. if slot == i then add64 (w.slots i) t.local_bytes_alloc_batch else w.slots i;
      }
      else w in
    let w2 =
      if ltb 0 t.local_bytes_free_batch
      then record w1 {
        slots = λ i. if slot == i then sub64 (w1.slots i) t.local_bytes_free_batch else w1.slots i;
      }
      else w1 in
    if slot == 0
    then w
    else set_tlh tlh
        (record (w2.tlhs tlh) { local_bytes_alloc_batch = 0; local_bytes_free_batch = 0 }) w2

-- `lz_tlh_destructor`
unfoldable pub tlh_destructor : ℕ → Process → Process
tlh_destructor tlh p =
    let w = settle_counts tlh (flush_outgoing_batch tlh p.world) in
    if tlh == 0 then p else record p {
      world = set_tlh tlh (record (w.tlhs tlh) { is_zombie = 1; next_zombie = p.zombie_tlhs }) w;
      zombie_tlhs = tlh;
    }

-- `sizeof(lz_tlh_t)`: the bins of three pointers and 88 bytes, on lines of the cache
abbrev pub tlh_size : ℕ
tlh_size = (24 * max_size_classes + 88 + 63) / 64 * 64

-- A heap for the running thread: a zombie's, else a new one. `none` is the trap when there is no
-- memory for it.
unfoldable pub adopt_tlh : Process → Option Process
unfolding sys_mmap
adopt_tlh p =
    let (zombie, p1) = resurrect_zombie p in
    let adopted = record (p1.world.tlhs zombie) { is_zombie = 0; thread_id = p1.thread_counter } in
    let (answer, o) = sys_mmap tlh_size p1.world.os in
    let w = record p1.world { os = o } in
    let count = u32 (p1.thread_counter + 1) in
    if zombie == 0
    then elim answer [
      | none ↦ none
      | some addr ↦ some (record p1 {
        world =
            set_tlh addr
              (record (tlh_init p1.thread_counter (w.tlhs addr)) { is_zombie = 0; next_zombie = 0 })
              w;
        tls_tlh_ptr = addr;
        thread_counter = count;
      })
    ]
    else some (record p1 {
      world = set_tlh zombie adopted p1.world;
      tls_tlh_ptr = zombie;
      thread_counter = count;
    })

-- the rest of `ensure_tls_init`: the counters and the telemetry slot
unfoldable pub assign_slot : Process → Process
assign_slot p =
    let tlh = p.tls_tlh_ptr in
    let t = p.world.tlhs tlh in
    let safe_idx = t.thread_id % (max_telemetry_slots - thread_slot_base_idx) in
    record p {
      world =
          set_tlh tlh
            (record t {
              local_bytes_alloc_batch = 0;
              local_bytes_free_batch = 0;
              stat_slot = telemetry_get_slot (thread_slot_base_idx + safe_idx) p;
            })
            p.world;
    }

-- `ensure_tls_init`
unfoldable pub ensure_tls_init : Process → Option Process
ensure_tls_init p =
    if p.tls_tlh_ptr == 0
    then elim (adopt_tlh p) [ none ↦ none | some p1 ↦ some (assign_slot p1) ]
    else some p

-- the loop of `lzmalloc_gc` over at most `fuel` zombies
unfoldable pub reap_zombies : ℕ → ℕ → World → World
reap_zombies zero current w = w
reap_zombies (suc fuel) current w =
    let w1 = reap fuel current w in
    let rest = reap_zombies fuel (w1.tlhs current).next_zombie w1 in
    if current == 0 then w else rest

-- `lzmalloc_gc`
unfoldable pub gc : ℕ → Process → Process
gc fuel p =
    let w = if p.tls_tlh_ptr == 0 then p.world else reap fuel p.tls_tlh_ptr p.world in
    record p { world = vmm_purge_all_caches (reap_zombies fuel p.zombie_tlhs w) }
