-- ===== src/Tests/World.antt =====
-- A small concrete memory for the tests: nothing is cached, registered or allocated.
use lzmalloc.Base.{ℕ, none, some, []}
use lzmalloc.Chunk.{Header, chunk_magic, type_slab}
use lzmalloc.Memory.{Span, Slab, Tlh, World}
use lzmalloc.Os.{Os}
use lzmalloc.Thread.{Process}

-- `mmap` answers an address that is not on a 2 MB boundary, the thread runs on node 1
abbrev pub mapped_at : ℕ
mapped_at = 4096

abbrev pub os0 : Os
os0 = record {
  mmap_answer = λ i. some mapped_at;
  mmap_count = 0;
  getcpu_answer = λ i. some 1;
  getcpu_count = 0;
  calls = [];
}

abbrev pub header0 : Header
header0 = record {
  next = 0;
  owning_tlh = 0;
  magic = chunk_magic;
  canary = 0;
  node_id = 1;
  checksum = 0;
  chunk_type = type_slab;
}

abbrev pub span0 : Span
span0 = record {
  next = 0;
  prev = 0;
  free_bitmap = λ i. 0;
  used_pages = 0;
  alloc_size_pages = λ i. 0;
}

abbrev pub slab0 : Slab
slab0 = record {
  next = 0;
  prev = 0;
  memory_base = 0;
  memory_end = 0;
  bump_ptr = 0;
  free_list_head = 0;
  size_class = 0;
  block_size = 16;
  max_objects = 100;
  used_objects = 0;
}

abbrev pub tlh0 : Tlh
tlh0 = record {
  bins = λ i. record { current_slab = 0; partial_list = 0; full_list = 0 };
  active_spans = 0;
  remote_free_head = 0;
  outgoing_batch = record { target_tlh = 0; head = 0; tail = 0; count = 0 };
  thread_id = 0;
  is_zombie = 0;
  local_bytes_alloc_batch = 0;
  local_bytes_free_batch = 0;
  bytes_allocated = 0;
  next_zombie = 0;
  stat_slot = 0;
}

abbrev pub world0 : World
world0 = record {
  headers = λ a. header0;
  spans = λ a. span0;
  slabs = λ a. slab0;
  tlhs = λ a. tlh0;
  nodes = λ a. 0;
  words = λ a. 0;
  slots = λ a. 0;
  pools = λ i. record { free_chunks = 0; available_count = 0 };
  global_free_chunks = 0;
  root = λ i. none;
  secret = 0xDEAD_BEEF_CAFE_BABE;
  os = os0;
}

abbrev pub process0 : Process
process0 = record {
  world = world0;
  tls_tlh_ptr = 8192;
  zombie_tlhs = 0;
  thread_counter = 1;
  telemetry_matrix = 0;
}
