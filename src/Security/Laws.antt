-- ===== src/Security/Laws.antt =====
-- The secret is never zero once made, is made once, and masking a pointer twice gives it back.
use lzmalloc.Base.{ℕ, ◌<◌, ◌≡◌, ◌≢◌, arith, bit_xor, ◌∙◌, sym}
use lzmalloc.Bits.Xor.{bit_xor-lt, bit_xor_twice_two, bit_xor_cancel, bit_xor_comm}
use lzmalloc.Security.{Entropy, security_init, ptr_obfuscate}
use lzmalloc.Word.{word_mod}

-- Whatever the operating system answers, `lz_security_init` leaves a secret that is not zero, and
-- a second call, under any answers, leaves the secret as it is.
pub security_init-ne-zero :
    (e e' : Entropy) (secret : ℕ)
    → (security_init e secret ≢ 0)
      × (security_init e' (security_init e secret) ≡ security_init e secret)
security_init-ne-zero e e' secret =
    (made e secret, kept e' (security_init e secret) (made e secret))
  where
    made : (e : Entropy) (secret : ℕ) → security_init e secret ≢ 0
    made e secret = unfold security_init in ground arith

    kept : (e : Entropy) (secret : ℕ) → secret ≢ 0 → security_init e secret ≡ secret
    kept e secret h = unfold security_init in ground arith

-- Reading a stored free-list pointer undoes the masking of the write: on 64-bit words,
-- `lz_ptr_obfuscate` with the same storage address is its own inverse.
pub ptr_obfuscate_twice :
    (secret ptr storage_addr : ℕ)
    → secret < word_mod
    → ptr < word_mod
    → storage_addr < word_mod
    → ptr_obfuscate secret (ptr_obfuscate secret ptr storage_addr) storage_addr ≡ ptr
unfolding ptr_obfuscate
ptr_obfuscate_twice secret ptr storage_addr hs hp ha =
    bit_xor_twice_two 64 ptr secret storage_addr hp hs ha

-- A masked pointer that is moved is not read back: on 64-bit words, a pointer masked for one
-- address and read at another address gives some other pointer.
pub ptr_obfuscate_moved :
    (secret ptr from to : ℕ)
    → secret < word_mod
    → ptr < word_mod
    → from < word_mod
    → to < word_mod
    → from ≢ to
    → ptr_obfuscate secret (ptr_obfuscate secret ptr from) to ≢ ptr
ptr_obfuscate_moved secret ptr from to hs hp hf ht ne e = ne same
  where
    stored : ℕ
    stored = ptr_obfuscate secret ptr from

    stored-lt : stored < word_mod
    stored-lt =
        unfold ptr_obfuscate in
        bit_xor-lt 64 (bit_xor ptr secret) from (bit_xor-lt 64 ptr secret hp hs) hf

    both : ptr_obfuscate secret stored to ≡ ptr_obfuscate secret stored from
    both = e ∙ sym (ptr_obfuscate_twice secret ptr from hs hp hf)

    masked-lt : bit_xor stored secret < word_mod
    masked-lt = bit_xor-lt 64 stored secret stored-lt hs

    bare : bit_xor (bit_xor stored secret) to ≡ bit_xor (bit_xor stored secret) from
    bare = unfold ptr_obfuscate in both

    swapped : bit_xor to (bit_xor stored secret) ≡ bit_xor from (bit_xor stored secret)
    swapped =
        bit_xor_comm 64 to (bit_xor stored secret) ht masked-lt
        ∙ bare
        ∙ bit_xor_comm 64 (bit_xor stored secret) from masked-lt hf

    same : from ≡ to
    same = sym (bit_xor_cancel 64 to from (bit_xor stored secret) ht hf masked-lt swapped)
