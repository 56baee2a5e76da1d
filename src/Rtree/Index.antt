-- ===== src/Rtree/Index.antt =====
-- The pair of indices names a chunk: addresses below `2 ^ 48` share both exactly when they lie in
-- one 2 MB chunk.
use lzmalloc.Base.{ℕ, ◌-◌, ◌/◌, ◌%◌, ◌^◌, ◌<◌, ◌≡◌, arith, bit_and, ap}
use lzmalloc.Bits.{bit_and_mask}
use lzmalloc.Rtree.{block_num, l1_idx, l2_idx}

-- the span of virtual addresses that the index tells apart
abbrev pub address_space : ℕ
address_space = 2 ^ 48

pub l2_idx_form : (a : ℕ) → l2_idx a ≡ a / 2 ^ 21 % 2 ^ 14
unfolding l2_idx
l2_idx_form a = bit_and_mask 14 (a / 2 ^ 21)

pub l1_idx_form : (a : ℕ) → l1_idx a ≡ a / 2 ^ 21 / 2 ^ 14 % 2 ^ 13
unfolding l1_idx
l1_idx_form a = bit_and_mask 13 (a / 2 ^ 21 / 2 ^ 14)

pub l1_idx-l2_idx :
    (a p : ℕ)
    → a < address_space
    → p < address_space
    → l1_idx a ≡ l1_idx p
    → l2_idx a ≡ l2_idx p
    → block_num a ≡ block_num p
unfolding block_num
l1_idx-l2_idx a p ha hp e1 e2 =
    omega (arith, l1_idx_form a, l1_idx_form p, l2_idx_form a, l2_idx_form p, e1, e2)

pub same_block :
    (a p : ℕ) → block_num a ≡ block_num p → (l1_idx a ≡ l1_idx p) × (l2_idx a ≡ l2_idx p)
unfolding block_num l1_idx l2_idx
same_block a p e =
    (ap (λ t. bit_and (t / 2 ^ 14) (2 ^ 13 - 1)) e, ap (λ t. bit_and t (2 ^ 14 - 1)) e)

pub l1_idx-lt : (a : ℕ) → (l1_idx a < 2 ^ 13) × (l2_idx a < 2 ^ 14)
l1_idx-lt a = omega (arith, l1_idx_form a, l2_idx_form a)
