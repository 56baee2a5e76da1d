-- ===== src/Chunk.antt =====
-- chunk.h: the header of a chunk.
pub mod Integrity
use lzmalloc.Base.{ℕ, bit_xor, bit_and}
use lzmalloc.Word.{u32, ◌>>>◌}

-- `chunk_type`
abbrev pub type_slab : ℕ
type_slab = 0

abbrev pub type_span : ℕ
type_span = 1

abbrev pub type_direct : ℕ
type_direct = 2

-- LZ_CHUNK_MAGIC_V2
abbrev pub chunk_magic : ℕ
chunk_magic = 0x434F_4C4C_414D_5A4C

pub record Header : Type 0 where
  pub next : ℕ
  pub owning_tlh : ℕ
  pub magic : ℕ
  pub canary : ℕ
  pub node_id : ℕ
  pub checksum : ℕ
  pub chunk_type : ℕ

-- `lz_calc_checksum`
unfoldable pub calc_checksum : Header → ℕ
calc_checksum c =
    let owner = c.owning_tlh in
    let hash = bit_xor c.node_id (u32 (bit_and owner 0xFFFF_FFFF)) in
    bit_xor hash (u32 (owner >>> 32))
