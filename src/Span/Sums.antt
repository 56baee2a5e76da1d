-- ===== src/Span/Sums.antt =====
-- Sums of a map over an initial segment.
use lzmalloc.Base.{ℕ, zero, suc, ◌+◌, ◌≤◌, ◌<◌, ◌≡◌, refl, arith, update}

unfoldable pub sum : ℕ → (ℕ → ℕ) → ℕ
sum zero f = 0
sum (suc n) f = sum n f + f n

pub sum-zero : (n : ℕ) → sum n (λ i. 0) ≡ 0
unfolding sum
sum-zero zero = refl
sum-zero (suc n) = ground (arith, sum-zero n)

sum-update_outside : (n i v : ℕ) (f : ℕ → ℕ) → n ≤ i → sum n (update f i v) ≡ sum n f
unfolding sum
sum-update_outside zero i v f h = refl
sum-update_outside (suc n) i v f h = ground (arith, sum-update_outside n i v f)

pub sum-update : (n i v : ℕ) (f : ℕ → ℕ) → i < n → sum n (update f i v) + f i ≡ sum n f + v
unfolding sum
sum-update zero i v f h = absurd (omega arith)
sum-update (suc n) i v f h = ground (arith, sum-update n i v f, sum-update_outside n i v f)

pub le-sum : (n i : ℕ) (f : ℕ → ℕ) → i < n → f i ≤ sum n f
unfolding sum
le-sum zero i f h = absurd (omega arith)
le-sum (suc n) i f h = ground (arith, le-sum n i f)

pub sum-all_zero : (n : ℕ) (f : ℕ → ℕ) → ((i : ℕ) → i < n → f i ≡ 0) → sum n f ≡ 0
unfolding sum
sum-all_zero zero f h = refl
sum-all_zero (suc n) f h =
    ground (arith, sum-all_zero n f (λ i lt. h i (omega arith)), h n (omega arith))
