-- ===== src/Malloc/Small.antt =====
-- `lz_memalign` on small sizes: the size is rounded up to the alignment, and that is enough.
use native.Mathlib.Nat.{add-mul-mod_self_right, div-add-mod', mul_assoc, pow-le-pow_right}
use lzmalloc.Base.{
  ℕ, zero, suc, ◌+◌, ◌*◌, ◌-◌, ◌/◌, ◌%◌, ◌^◌, ◌≤◌, ◌<◌, ◌≡◌, refl, sym, arith, true, ◌==◌, ==_iff,
  ltb, ltb→lt, check_below, check_below-at, ap, ◌∙◌,
}
use lzmalloc.Config.{huge_page_size}
use lzmalloc.Sizes.{size_to_class, class_to_size, fls, clz}
use lzmalloc.Sizes.Classes.{size_to_class_le_iff}
use lzmalloc.Slab.{blank_slab}
use lzmalloc.Slab.Geometry.{blank_slab-blocks}
use lzmalloc.Word.{u32, word_mod, align_up}
use lzmalloc.Word.Align.{align_up-pow}

abbrev block : ℕ → ℕ
block size = u32 (class_to_size (size_to_class size))

of_64 : check_below 512 (λ q. block ((q + 1) * 64) % 64 == 0) ≡ true
unfolding check_below class_to_size size_to_class fls clz
of_64 = refl

of_32 : check_below 1024 (λ q. block ((q + 1) * 32) % 32 == 0) ≡ true
unfolding check_below class_to_size size_to_class fls clz
of_32 = refl

of_16 : check_below 40 (λ i. u32 (class_to_size i) % 16 == 0) ≡ true
unfolding check_below class_to_size
of_16 = refl

below_2_16 : check_below 40 (λ i. ltb (class_to_size i) 65536) ≡ true
unfolding check_below class_to_size
below_2_16 = refl

divides : (k b : ℕ) → k ≤ 4 → b % 16 ≡ 0 → b % 2 ^ k ≡ 0
divides zero b h e = omega (arith, e)
divides (suc zero) b h e = omega (arith, e)
divides (suc (suc zero)) b h e = omega (arith, e)
divides (suc (suc (suc zero))) b h e = omega (arith, e)
divides (suc (suc (suc (suc zero)))) b h e = omega (arith, e)
divides (suc (suc (suc (suc (suc k))))) b h e = absurd (omega arith)

class-lt : (s : ℕ) → 0 < s → s ≤ 32768 → size_to_class s < 40
unfolding class_to_size
class-lt s pos h = omega (arith, (size_to_class_le_iff s 39 pos (omega arith) (omega arith)).1 h)

-- rounding up to a multiple of `2 ^ k`
abbrev up : ℕ → ℕ → ℕ
up k s = (s + (2 ^ k - 1)) / 2 ^ k * 2 ^ k

up_bounds : (k s : ℕ) → k ≤ 6 → s ≤ 32768 → (s ≤ up k s) × (up k s ≤ 32768)
up_bounds zero s h hs = omega arith
up_bounds (suc zero) s h hs = omega arith
up_bounds (suc (suc zero)) s h hs = omega arith
up_bounds (suc (suc (suc zero))) s h hs = omega arith
up_bounds (suc (suc (suc (suc zero)))) s h hs = omega arith
up_bounds (suc (suc (suc (suc (suc zero))))) s h hs = omega arith
up_bounds (suc (suc (suc (suc (suc (suc zero)))))) s h hs = omega arith
up_bounds (suc (suc (suc (suc (suc (suc (suc k))))))) s h hs = absurd (omega arith)

low_block : (k a : ℕ) → k ≤ 4 → 0 < a → a ≤ 32768 → block a % 2 ^ k ≡ 0
low_block k a h pos small =
    divides k (block a) h
      ((==_iff _ 0).0 (check_below-at 40 _ (size_to_class a) of_16 (class-lt a pos small)))

block_multiple : (k s : ℕ) → k ≤ 6 → 0 < s → s ≤ 32768 → block (up k s) % 2 ^ k ≡ 0
block_multiple (suc (suc (suc (suc (suc zero))))) s h pos small =
    let q = (s - 1) / 32 in
    ap (λ t. block t % 32) {x = up 5 s} {y = (q + 1) * 32} (omega arith)
    ∙ (==_iff _ 0).0 (check_below-at 1024 _ q of_32 (omega arith))
block_multiple (suc (suc (suc (suc (suc (suc zero)))))) s h pos small =
    let q = (s - 1) / 64 in
    ap (λ t. block t % 64) {x = up 6 s} {y = (q + 1) * 64} (omega arith)
    ∙ (==_iff _ 0).0 (check_below-at 512 _ q of_64 (omega arith))
block_multiple k s h pos small =
    low_block k (up k s) (omega arith) (omega (arith, up_bounds k s h small))
      (omega (arith, up_bounds k s h small))

divides_64 : (k b : ℕ) → k ≤ 6 → b % 64 ≡ 0 → b % 2 ^ k ≡ 0
divides_64 zero b h e = omega (arith, e)
divides_64 (suc zero) b h e = omega (arith, e)
divides_64 (suc (suc zero)) b h e = omega (arith, e)
divides_64 (suc (suc (suc zero))) b h e = omega (arith, e)
divides_64 (suc (suc (suc (suc zero)))) b h e = omega (arith, e)
divides_64 (suc (suc (suc (suc (suc zero))))) b h e = omega (arith, e)
divides_64 (suc (suc (suc (suc (suc (suc zero)))))) b h e = omega (arith, e)
divides_64 (suc (suc (suc (suc (suc (suc (suc k))))))) b h e = absurd (omega arith)

-- For an alignment of a power of two up to 64 and a size from 1 byte to 32 KB, rounding the size up
-- by LZ_ALIGN_UP, as `lz_memalign` does before it calls `lz_malloc`, leads to a size class whose
-- blocks are all aligned: in a slab of that class, in any chunk, every block starts at a multiple of
-- the alignment and is at least as long as the size.
pub align_up-blocks :
    (k size chunk j : ℕ)
    → k ≤ 6
    → 0 < size
    → size ≤ 32768
    → chunk % huge_page_size ≡ 0
    → chunk + huge_page_size < word_mod
    → let s = blank_slab chunk (size_to_class (align_up size (2 ^ k))) in
      ((s.memory_base + j * s.block_size) % 2 ^ k ≡ 0) × (size ≤ s.block_size)
align_up-blocks k size chunk j h pos small aligned fits = (
  ap (λ t. (base + j * t) % 2 ^ k) split
      ∙ ap (λ t. (base + t) % 2 ^ k) (sym (mul_assoc j q (2 ^ k)))
      ∙ add-mul-mod_self_right base (j * q) (2 ^ k)
      ∙ divides_64 k base h (blank_slab-blocks chunk c aligned fits c_lt).1,
  long,
)
  where
    a : ℕ
    a = align_up size (2 ^ k)

    c : ℕ
    c = size_to_class a

    power : 2 ^ k ≤ 64
    power = pow-le-pow_right {n = 2} (omega arith) h

    form : a ≡ up k size
    form = align_up-pow k size (omega arith) (omega (arith, power))

    bounds : (size ≤ a) × (a ≤ 32768)
    bounds = omega (arith, form, up_bounds k size h small)

    c_lt : c < 40
    c_lt = class-lt a (omega (arith, bounds)) bounds.1

    base : ℕ
    base = (blank_slab chunk c).memory_base

    length : ℕ
    length = (blank_slab chunk c).block_size

    length_at : length ≡ block a
    length_at = unfold blank_slab in refl

    q : ℕ
    q = length / 2 ^ k

    multiple : length % 2 ^ k ≡ 0
    multiple =
        ap (λ t. t % 2 ^ k) length_at
        ∙ ap (λ t. block t % 2 ^ k) form
        ∙ block_multiple k size h pos small

    split : length ≡ q * 2 ^ k
    split = omega (arith, div-add-mod' length (2 ^ k), multiple)

    whole : class_to_size c < 65536
    whole = ltb→lt _ _ (check_below-at 40 _ c below_2_16 c_lt)

    long : size ≤ length
    long = omega (
      arith,
      length_at,
      whole,
      bounds,
      (size_to_class_le_iff a c (omega (arith, bounds)) (omega (arith, bounds))
            (omega (arith, c_lt))).0
          (omega arith),
    )
