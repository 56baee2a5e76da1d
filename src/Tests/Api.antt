-- ===== src/Tests/Api.antt =====
-- The public interface.
use lzmalloc.Base.{
  true, ◌<◌, ◌⊎◌, ℕ, ◌+◌, ◌*◌, ◌-◌, ◌%◌, ◌^◌, ◌≤◌, ◌≡◌, ◌≢◌, refl, arith, some, none, if◌then◌else◌,
  ◌==◌, ◌||◌, leb, ltb, ◌&&◌, not, true,
}
use lzmalloc.Config.{huge_page_size}
use lzmalloc.Huge.{trim_huge}
use lzmalloc.Huge.Trim.{trim_huge_exact}
use lzmalloc.Malloc.{malloc, calloc, memalign, posix_memalign, aligned_alloc, einval}
use lzmalloc.Malloc.Aligned.{alignment_rejected}
use lzmalloc.Malloc.Api.{calloc-product}
use lzmalloc.Hooks.{Hooks, hook_usable_size, base_malloc_aligned, base_heap_size}
use lzmalloc.Hooks.Base.{
  IsBumped, reserved, base_malloc_aligned-IsBumped, base_malloc_aligned-overflow,
}
use lzmalloc.Malloc.Small.{align_up-blocks}
use lzmalloc.Sizes.{size_to_class}
use lzmalloc.Slab.{blank_slab}
use lzmalloc.Malloc.Overflow.{malloc-overflow}
use lzmalloc.Tests.World.{os0, process0, mapped_at}
use lzmalloc.Thread.{Process}
use lzmalloc.Vmm.Cache.{round_up}
use lzmalloc.Vmm.Trim.{unmapped}
use lzmalloc.Word.{word_mod, align_up, is_power_of_two}
use lzmalloc.Word.PowerOfTwo.{is_power_of_two_iff}

abbrev four_mb : ℕ
four_mb = 4194304

trim_huge_exact_at :
    ((trim_huge four_mb mapped_at os0).0 % huge_page_size ≡ 0)
    × (mapped_at ≤ (trim_huge four_mb mapped_at os0).0)
    × ((trim_huge four_mb mapped_at os0).0 + four_mb ≤ mapped_at + four_mb + huge_page_size)
    × (unmapped 5000 (trim_huge four_mb mapped_at os0).1.calls ≡ (
        leb mapped_at 5000
        && ltb 5000 (mapped_at + four_mb + huge_page_size)
        && not (
            leb (trim_huge four_mb mapped_at os0).0 5000
            && ltb 5000 ((trim_huge four_mb mapped_at os0).0 + four_mb))))
trim_huge_exact_at = trim_huge_exact four_mb mapped_at 5000 os0 (omega arith) (omega arith)

calloc-product_at : calloc 1 (2 ^ 33) (2 ^ 33) process0 ≡ (
    if 2 ^ 33 == 0 || 2 ^ 33 == 0
    then malloc 1 1 process0
    else if leb word_mod (2 ^ 33 * 2 ^ 33)
    then some (0, process0)
    else malloc 1 (2 ^ 33 * 2 ^ 33) process0)
calloc-product_at = calloc-product 1 (2 ^ 33) (2 ^ 33) process0

not_power : (k : ℕ) → 24 ≢ 2 ^ k
unfolding is_power_of_two
not_power k e =
    let h : is_power_of_two 24 ≡ true = (is_power_of_two_iff 24 (omega arith)).1 (k, e) in
    ground (arith, h)

alignment_rejected_at :
    (posix_memalign 1 4096 24 100 process0 ≡ some (einval, none, process0))
    × (memalign 1 24 100 process0 ≡ some (0, process0))
    × (aligned_alloc 1 24 100 process0 ≡ some (0, process0))
alignment_rejected_at = alignment_rejected 1 4096 24 100 process0 (omega arith) not_power

-- the largest size
malloc-overflow_example :
    (r : ℕ × Process) × (malloc 1 (word_mod - 1) process0 ≡ some r)
    × (r.0 ≡ round_up mapped_at + 128)
    × (r.1.world.words (round_up mapped_at + 64) ≡ huge_page_size)
malloc-overflow_example =
    malloc-overflow 1 (word_mod - 1) mapped_at process0 (omega arith) (omega arith) refl
      (omega arith) (omega arith)

abbrev early : Hooks
early = record {
  base_heap = 65536;
  base_offset = 100;
  exact_size = λ a. 0;
  ready = 0;
  process = process0;
}

base_malloc_aligned-IsBumped_example :
    ((r : ℕ × Hooks) × (base_malloc_aligned (2 ^ 12) 100 early ≡ some r)
      × IsBumped early r.1 12 100 r.0)
    ⊎ ((base_malloc_aligned (2 ^ 12) 100 early ≡ none)
        × (base_heap_size < early.base_offset + 16 + 2 ^ 12 + reserved 100 + 16))
base_malloc_aligned-IsBumped_example =
    base_malloc_aligned-IsBumped 12 100 early (omega arith) (omega arith) (omega arith)
      (omega arith) (omega arith) (omega arith)

base_malloc_aligned-overflow_example :
    (r : ℕ × Hooks) × (base_malloc_aligned (2 ^ 12) (word_mod - 1) early ≡ some r)
    × (r.0 ≡ r.1.base_heap + r.1.base_offset)
    × (r.1.base_offset ≤ base_heap_size)
    × (hook_usable_size r.0 r.1 ≡ word_mod - 1)
base_malloc_aligned-overflow_example =
    base_malloc_aligned-overflow 12 (word_mod - 1) early (omega arith) (omega arith) (omega arith)
      (omega arith) (omega arith) (omega arith) (omega arith)

align_up-blocks_at :
    (((blank_slab 6291456 (size_to_class (align_up 100 (2 ^ 6)))).memory_base
          + 3 * (blank_slab 6291456 (size_to_class (align_up 100 (2 ^ 6)))).block_size)
        % 2 ^ 6
      ≡ 0)
    × (100 ≤ (blank_slab 6291456 (size_to_class (align_up 100 (2 ^ 6)))).block_size)
align_up-blocks_at =
    align_up-blocks 6 100 6291456 3 (omega arith) (omega arith) (omega arith) refl (omega arith)
