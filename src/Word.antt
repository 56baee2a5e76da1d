-- ===== src/Word.antt =====
-- Machine words and the bitwise macros of common.h. A `size_t` or `uintptr_t` is a number below
-- 2 ^ 64, a `uint32_t` one below 2 ^ 32; every operation that can wrap says so.
pub mod Align
pub mod PowerOfTwo
use lzmalloc.Base.{ℕ, ◌+◌, ◌-◌, ◌*◌, ◌/◌, ◌%◌, ◌^◌, bit_and, Bool, true, ◌&&◌, not, ◌==◌}

abbrev pub word_mod : ℕ
word_mod = 2 ^ 64

abbrev pub u32_mod : ℕ
u32_mod = 2 ^ 32

abbrev pub u64 : ℕ → ℕ
u64 x = x % word_mod

abbrev pub u32 : ℕ → ℕ
u32 x = x % u32_mod

-- a + b, a - b and ~a on 64-bit words
abbrev pub add64 : ℕ → ℕ → ℕ
add64 a b = u64 (a + b)

abbrev pub sub64 : ℕ → ℕ → ℕ
sub64 a b = u64 (a + word_mod - b)

abbrev pub not64 : ℕ → ℕ
not64 a = word_mod - 1 - a

-- a - b on 32-bit words
abbrev pub sub32 : ℕ → ℕ → ℕ
sub32 a b = u32 (a + u32_mod - b)

infixl 75 ◌<<<◌ ◌>>>◌
abbrev pub ◌<<<◌ : ℕ → ℕ → ℕ
x <<< k = x * 2 ^ k

abbrev pub ◌>>>◌ : ℕ → ℕ → ℕ
x >>> k = x / 2 ^ k

-- LZ_IS_POWER_OF_TWO, and `is_power_of_two` of lzmalloc.c
unfoldable pub is_power_of_two : ℕ → Bool
is_power_of_two x = not (x == 0) && (bit_and x (sub64 x 1) == 0)

-- LZ_ALIGN_UP
unfoldable pub align_up : ℕ → ℕ → ℕ
align_up size align = bit_and (add64 size (sub64 align 1)) (not64 (sub64 align 1))

-- LZ_ALIGN_DOWN
unfoldable pub align_down : ℕ → ℕ → ℕ
align_down size align = bit_and size (not64 (sub64 align 1))
