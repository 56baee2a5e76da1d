-- ===== src/Sizes.antt =====
-- sizes.h: the size classes.
pub mod Classes
pub mod Form
pub mod Msb
use lzmalloc.Base.{ℕ, zero, suc, ◌+◌, ◌-◌, ◌^◌, bit_and, leb, ltb, ◌==◌, if◌then◌else◌}
use lzmalloc.Config.{min_alloc_size, small_linear_max}
use lzmalloc.Word.{u64, u32, sub64, sub32, ◌<<<◌, ◌>>>◌}

-- The leading zeros of `x` in `w` bits; `__builtin_clzll` is the case of 64.
unfoldable pub clz : ℕ → ℕ → ℕ
clz zero x = 0
clz (suc w) x = if leb (2 ^ w) x then 0 else suc (clz w x)

unfoldable pub fls : ℕ → ℕ
fls x = if x == 0 then 0 else 63 - clz 64 x

unfoldable pub size_to_class : ℕ → ℕ
size_to_class size =
    if leb size min_alloc_size
    then 0
    else let s = sub64 size 1 in
      if ltb s small_linear_max
      then u32 (s >>> 4)
      else let msb = fls s in
        let shift = sub32 msb 2 in
        let base = u32 (sub32 msb 7 <<< 2) in
        let offset = u32 (bit_and (s >>> shift) 3) in u32 (8 + base + offset)

unfoldable pub class_to_size : ℕ → ℕ
class_to_size class_idx =
    if ltb class_idx 8
    then u32 (u32 (class_idx + 1) <<< 4)
    else let base_idx = sub32 class_idx 8 in
      let group = base_idx >>> 2 in
      let shift = u32 (group + 5) in
      let offset = bit_and base_idx 3 in u64 (u32 (5 + offset) <<< shift)
