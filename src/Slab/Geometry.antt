-- ===== src/Slab/Geometry.antt =====
-- Where the blocks of a slab lie.
use native.Mathlib.Nat.{mul-le-mul}
use lzmalloc.Base.{
  ℕ, ◌+◌, ◌*◌, ◌-◌, ◌/◌, ◌%◌, ◌^◌, ◌≤◌, ◌<◌, ◌≡◌, refl, arith, Bool, ◌&&◌, leb, ltb, ap, ◌∙◌,
  check_below, check_below-at,
}
use lzmalloc.Sizes.{class_to_size}
use lzmalloc.Config.{huge_page_size, cache_line_size, sizeof_slab}
use lzmalloc.Slab.{blank_slab, slab_of}
use lzmalloc.Word.{word_mod, u32, add64, sub64, align_up}
use lzmalloc.Word.Align.{align_up-pow}

-- the bytes behind the slab struct
abbrev data_size : ℕ
data_size = huge_page_size - 128

-- the blocks that fit, for each of the classes
block_count :
    (i : ℕ)
    → i < 40
    → let b = u32 (class_to_size i) in
      let n = data_size / b in
      (63 ≤ n) × (n < 2 ^ 32) × (n * b ≤ data_size) × (data_size < (n + 1) * b)
unfolding check_below class_to_size
block_count i h = ground (arith, check_below-at 40 fits i refl h)
  where
    fits : ℕ → Bool
    fits j =
        let b = u32 (class_to_size j) in
        let n = data_size / b in
        leb 63 n && ltb n (2 ^ 32) && leb (n * b) data_size && ltb data_size ((n + 1) * b)

-- In the slab that `lz_slab_create` writes into a 2 MB chunk for one of the 40 classes in use, each
-- of the `max_objects` blocks lies behind the slab struct and within the chunk, the first one
-- starts at the bump pointer and on a cache line, one more block would not fit, and there is room
-- for at least 63 blocks.
pub blank_slab-blocks :
    (chunk class_idx : ℕ)
    → chunk % huge_page_size ≡ 0
    → chunk + huge_page_size < word_mod
    → class_idx < 40
    → let s = blank_slab chunk class_idx in
      (s.bump_ptr ≡ s.memory_base)
      × (s.memory_base % cache_line_size ≡ 0)
      × (slab_of chunk + sizeof_slab ≤ s.memory_base)
      × (s.memory_end ≡ chunk + huge_page_size)
      × ((k : ℕ) → k < s.max_objects → s.memory_base + (k + 1) * s.block_size ≤ s.memory_end)
      × (s.memory_end < s.memory_base + (s.max_objects + 1) * s.block_size)
      × (63 ≤ s.max_objects)
unfolding blank_slab
blank_slab-blocks chunk class_idx aligned fits small =
    let b = u32 (class_to_size class_idx) in
    let n = data_size / b in
    let (many, short, fit, full) = block_count class_idx small in
    let at : add64 (slab_of chunk) sizeof_slab ≡ chunk + 128 = omega (arith, fits) in
    let start : align_up (add64 (slab_of chunk) sizeof_slab) cache_line_size ≡ chunk + 128 =
      ap (λ t. align_up t 64) at
      ∙ (align_up-pow 6 (chunk + 128) (omega arith) (omega arith) ∙ omega arith) in
    let stop : add64 chunk huge_page_size ≡ chunk + huge_page_size = omega (arith, fits) in
    let size : sub64 (chunk + huge_page_size) (chunk + 128) ≡ data_size = omega (arith, fits) in
    let room : u32 (sub64 (chunk + huge_page_size) (chunk + 128) / b) ≡ n =
      ap (λ t. u32 (t / b)) size ∙ omega (arith, short) in
    rw (start, stop, room)
      (
        refl,
        omega (arith, aligned),
        omega (arith, fits),
        refl,
        λ k lt. omega (
          arith,
          fit,
          mul-le-mul {n₁ = k + 1} {m₁ = b} {n₂ = n} {m₂ = b} (omega arith) (omega arith),
        ),
        omega (arith, full),
        many,
      )
