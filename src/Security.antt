-- ===== src/Security.antt =====
-- security.c and security.h: the process secret and the masking of free-list pointers.
pub mod Laws
use lzmalloc.Base.{
  ℕ, bit_xor, Bool, true, false, Option, none, some, ◌==◌, ◌&&◌, not, if◌then◌else◌,
}
use lzmalloc.Word.{u64, ◌<<<◌}

-- What the operating system answers while the secret is made. A count of `none` is the error
-- return -1. A value is what the secret's bytes hold after the call, whether it succeeded or not.
pub record Entropy : Type 0 where
  pub getrandom_count : Option ℕ
  pub getrandom_value : ℕ
  pub urandom_fd : Option ℕ
  pub read_count : Option ℕ
  pub read_value : ℕ
  pub time : ℕ
  pub pid : ℕ
  pub stack_addr : ℕ

-- `bytes == sizeof(g_lz_global_secret)`
abbrev pub is_whole : Option ℕ → Bool
is_whole none = false
is_whole (some n) = n == 8

abbrev pub is_open : Option ℕ → Bool
is_open none = false
is_open (some fd) = true

-- the third way: time, process id and a stack address
unfoldable pub fallback : Entropy → ℕ
fallback e =
    let mixed = bit_xor (bit_xor e.time (u64 (e.pid <<< 32))) e.stack_addr in
    if mixed == 0 then 0xDEAD_BEEF_CAFE_BABE else mixed

-- the second way: /dev/urandom
unfoldable pub from_urandom : Entropy → ℕ
unfolding fallback
from_urandom e =
    if is_open e.urandom_fd
    then if is_whole e.read_count && not (e.read_value == 0) then e.read_value else fallback e
    else fallback e

-- `lz_security_init`: the secret before and after
unfoldable pub security_init : Entropy → ℕ → ℕ
unfolding from_urandom
security_init e secret =
    if not (secret == 0)
    then secret
    else if is_whole e.getrandom_count
    then if not (e.getrandom_value == 0) then e.getrandom_value else from_urandom e
    else from_urandom e

-- `lz_ptr_obfuscate`
unfoldable pub ptr_obfuscate : ℕ → ℕ → ℕ → ℕ
ptr_obfuscate secret ptr storage_addr = bit_xor (bit_xor ptr secret) storage_addr
