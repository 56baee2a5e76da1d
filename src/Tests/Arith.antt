-- ===== src/Tests/Arith.antt =====
-- Words, size classes, the secret and the checksum.
use lzmalloc.Base.{ℕ, ◌+◌, ◌%◌, ◌^◌, ◌≤◌, ◌<◌, ◌≡◌, ◌≢◌, ◌↔◌, inl, refl, arith, none, true}
use lzmalloc.Chunk.Integrity.{calc_checksum_detects}
use lzmalloc.Security.{Entropy, security_init, ptr_obfuscate}
use lzmalloc.Security.Laws.{security_init-ne-zero, ptr_obfuscate_twice, ptr_obfuscate_moved}
use lzmalloc.Sizes.{fls, size_to_class, class_to_size}
use lzmalloc.Sizes.Classes.{size_to_class_le_iff, size_to_class-class_to_size}
use lzmalloc.Sizes.Msb.{IsMsb, fls-IsMsb}
use lzmalloc.Tests.World.{header0}
use lzmalloc.Word.{is_power_of_two, align_up}
use lzmalloc.Word.Align.{align_up_least}
use lzmalloc.Word.PowerOfTwo.{is_power_of_two_iff}

size_to_class_le_iff_example : (size_to_class 1000 ≤ 19) ↔ (1000 ≤ class_to_size 19)
size_to_class_le_iff_example =
    size_to_class_le_iff 1000 19 (omega arith) (omega arith) (omega arith)

size_to_class-class_to_size_at : size_to_class (class_to_size 39) ≡ 39
size_to_class-class_to_size_at = size_to_class-class_to_size 39 (omega arith)

fls-IsMsb_at : (fls 1000 ≤ 63) × IsMsb 1000 (fls 1000)
fls-IsMsb_at = fls-IsMsb 1000 (omega arith) (omega arith)

align_up_least_at :
    (align_up 5000 (2 ^ 12) % 2 ^ 12 ≡ 0)
    × (5000 ≤ align_up 5000 (2 ^ 12))
    × (align_up 5000 (2 ^ 12) < 5000 + 2 ^ 12)
align_up_least_at = align_up_least 12 5000 (omega arith) (omega arith)

is_power_of_two_iff_at : (is_power_of_two 4096 ≡ true) ↔ ((k : ℕ) × (4096 ≡ 2 ^ k))
is_power_of_two_iff_at = is_power_of_two_iff 4096 (omega arith)

-- every source of randomness fails, and the time, the process id and the address mix to zero
abbrev no_entropy : Entropy
no_entropy = record {
  getrandom_count = none;
  getrandom_value = 0;
  urandom_fd = none;
  read_count = none;
  read_value = 0;
  time = 0;
  pid = 0;
  stack_addr = 0;
}

security_init-ne-zero_at :
    (security_init no_entropy 0 ≢ 0)
    × (security_init no_entropy (security_init no_entropy 0) ≡ security_init no_entropy 0)
security_init-ne-zero_at = security_init-ne-zero no_entropy no_entropy 0

ptr_obfuscate_twice_at :
    ptr_obfuscate 0xDEAD_BEEF_CAFE_BABE (ptr_obfuscate 0xDEAD_BEEF_CAFE_BABE 4096 8192) 8192 ≡ 4096
ptr_obfuscate_twice_at =
    ptr_obfuscate_twice 0xDEAD_BEEF_CAFE_BABE 4096 8192 (omega arith) (omega arith) (omega arith)

ptr_obfuscate_moved_at :
    ptr_obfuscate 0xDEAD_BEEF_CAFE_BABE (ptr_obfuscate 0xDEAD_BEEF_CAFE_BABE 4096 8192) 8208 ≢ 4096
ptr_obfuscate_moved_at =
    ptr_obfuscate_moved 0xDEAD_BEEF_CAFE_BABE 4096 8192 8208 (omega arith) (omega arith)
      (omega arith) (omega arith) (ground arith)

calc_checksum_detects_at :
    (header0.node_id ≡ header0.node_id) × (header0.owning_tlh ≡ header0.owning_tlh)
calc_checksum_detects_at =
    calc_checksum_detects header0 header0 (omega arith) (omega arith) (omega arith) (omega arith)
      (inl refl) refl
