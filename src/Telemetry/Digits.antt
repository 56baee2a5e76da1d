-- ===== src/Telemetry/Digits.antt =====
-- `lz_itoa_fast` writes the decimal digits of its number.
use lzmalloc.Base.{
  ℕ, zero, suc, ◌+◌, ◌-◌, ◌*◌, ◌/◌, ◌%◌, ◌^◌, ◌≤◌, ◌<◌, ◌≡◌, ◌≢◌, refl, arith, some, true, ◌==◌,
  Bool-cases, inl, inr, update, update_ne, update_self, ==_of_ne, sym, ap, subst, ◌∙◌,
}
use lzmalloc.Telemetry.{itoa_fast, digits_loop, copy_reversed, is_positive, digit_zero, max_digits}

-- `val` without its last `k` digits
unfoldable shifted : ℕ → ℕ → ℕ
shifted val zero = val
shifted val (suc k) = shifted val k / 10

shifted_inner : (val k : ℕ) → shifted (val / 10) k ≡ shifted val (suc k)
unfolding shifted
shifted_inner val zero = refl
shifted_inner val (suc k) = rw (shifted_inner val k) refl

-- What `temp` and the count hold behind the loop that started at `i`: the digits, last one first.
record IsSplit (val i : ℕ) (old : ℕ → ℕ) (r : ℕ × (ℕ → ℕ)) : Type 0 where
  count : ℕ
  until : r.0 ≡ i + count
  digits : (k : ℕ) → k < count → r.1 (i + k) ≡ shifted val k % 10 + digit_zero
  below : (a : ℕ) → a < i → r.1 a ≡ old a
  whole : shifted val count ≡ 0
  led : (k : ℕ) → k < count → 0 < shifted val k

nothing_left : (i : ℕ) (temp : ℕ → ℕ) → IsSplit 0 i temp (i, temp)
unfolding shifted
nothing_left i temp = record {
  count = 0;
  until = omega arith;
  digits = λ k lt. absurd (omega arith);
  below = λ a lt. refl;
  whole = refl;
  led = λ k lt. absurd (omega arith);
}

-- 10 to the power `fuel`
abbrev limit : ℕ → ℕ
limit zero = 1
limit (suc fuel) = 10 * limit fuel

digits_loop-IsSplit :
    (fuel val i : ℕ) (temp : ℕ → ℕ)
    → val < limit fuel
    → val < 2 ^ 31
    → (r : ℕ × (ℕ → ℕ)) × (digits_loop fuel val i temp ≡ some r)
      × IsSplit val i temp r
      × (r.0 ≤ i + fuel)
unfolding digits_loop shifted
digits_loop-IsSplit zero zero i temp h small =
    ((i, temp), ground arith, nothing_left i temp, omega arith)
digits_loop-IsSplit zero (suc val) i temp h small = absurd (omega arith)
digits_loop-IsSplit (suc fuel) zero i temp h small =
    ((i, temp), ground arith, nothing_left i temp, omega arith)
digits_loop-IsSplit (suc fuel) (suc val) i temp h small =
    let (r, e, s, le) =
      digits_loop-IsSplit fuel (suc val / 10) (i + 1) (update temp i (suc val % 10 + digit_zero))
        (omega arith) (omega arith) in
    (
      r,
      rw (live, e) refl,
      record {
        count = suc s.count;
        until = omega (arith, s.until);
        digits = digits s;
        below = λ a lt. s.below a (omega arith) ∙ update_ne temp i a _ (omega arith);
        whole = sym (shifted_inner (suc val) s.count) ∙ s.whole;
        led = led s;
      },
      omega (arith, le),
    )
  where
    live : is_positive (suc val) ≡ true
    live = ground arith

    digits :
        {r : ℕ × (ℕ → ℕ)}
        (s : IsSplit (suc val / 10) (i + 1) (update temp i (suc val % 10 + digit_zero)) r) (k : ℕ)
        → k < suc s.count
        → r.1 (i + k) ≡ shifted (suc val) k % 10 + digit_zero
    digits {r} s zero lt =
        ap (λ t. r.1 t) (omega arith) ∙ s.below i (omega arith) ∙ update_self temp i _
    digits {r} s (suc k) lt =
        ap (λ t. r.1 t) (omega arith)
        ∙ s.digits k (omega arith)
        ∙ ap (λ t. t % 10 + digit_zero) (shifted_inner (suc val) k)

    led :
        {r : ℕ × (ℕ → ℕ)}
        (s : IsSplit (suc val / 10) (i + 1) (update temp i (suc val % 10 + digit_zero)) r) (k : ℕ)
        → k < suc s.count
        → 0 < shifted (suc val) k
    led s zero lt = omega arith
    led s (suc k) lt = subst (λ t. 0 < t) (shifted_inner (suc val) k) (s.led k (omega arith))

copy_reversed_frame :
    (left j i buf : ℕ) (temp chars : ℕ → ℕ) (a : ℕ)
    → a < buf + j
    → copy_reversed left j i temp buf chars a ≡ chars a
unfolding copy_reversed
copy_reversed_frame zero j i buf temp chars a h = refl
copy_reversed_frame (suc left) j i buf temp chars a h =
    copy_reversed_frame left (j + 1) i buf temp (update chars (buf + j) (temp (i - 1 - j))) a
      (omega arith)
    ∙ update_ne chars (buf + j) a _ (omega arith)

copy_reversed_at :
    (left j i buf : ℕ) (temp chars : ℕ → ℕ) (k : ℕ)
    → j ≤ k
    → k < j + left
    → copy_reversed left j i temp buf chars (buf + k) ≡ temp (i - 1 - k)
unfolding copy_reversed
copy_reversed_at zero j i buf temp chars k h lt = absurd (omega arith)
copy_reversed_at (suc left) j i buf temp chars k h lt = elim (Bool-cases (j == k)) [
  | inl e ↦
      copy_reversed_frame left (j + 1) i buf temp _ (buf + k) (ground (arith, e))
      ∙ ground (arith, e)
  | inr e ↦ copy_reversed_at left (j + 1) i buf temp _ k (ground (arith, e)) (omega arith)
]

-- the number whose decimal digits are the first `len` characters from `buf` on
unfoldable pub decimal : (ℕ → ℕ) → ℕ → ℕ → ℕ
decimal chars buf zero = 0
decimal chars buf (suc len) = decimal chars buf len * 10 + (chars (buf + len) - digit_zero)

-- The digits of `val` at `buf`, and the array around them.
pub record IsDecimal (val buf : ℕ) (chars : ℕ → ℕ) (r : ℕ × (ℕ → ℕ)) : Type 0 where
  pub value : decimal r.1 buf r.0 ≡ val
  pub digits : (j : ℕ) → j < r.0 → (digit_zero ≤ r.1 (buf + j)) × (r.1 (buf + j) ≤ digit_zero + 9)
  pub leading : 1 < r.0 → r.1 buf ≢ digit_zero
  pub length : (0 < r.0) × (r.0 ≤ max_digits)
  pub ended : r.1 (buf + r.0) ≡ 0
  pub frame : (a : ℕ) → a < buf → r.1 a ≡ chars a

decimal-shifted :
    (chars : ℕ → ℕ) (val buf count len : ℕ)
    → len ≤ count
    → ((j : ℕ) → j < count → chars (buf + j) ≡ shifted val (count - 1 - j) % 10 + digit_zero)
    → shifted val count ≡ 0
    → decimal chars buf len ≡ shifted val (count - len)
unfolding decimal shifted
decimal-shifted chars val buf count zero h d z = sym z ∙ ap (shifted val) (omega arith)
decimal-shifted chars val buf count (suc len) h d z = omega (
  arith,
  decimal-shifted chars val buf count len (omega arith) d z,
  d len (omega arith),
  step,
  same,
)
  where
    same : shifted val (count - 1 - len) ≡ shifted val (count - suc len)
    same = ap (shifted val) (omega arith)

    step : shifted val (count - len) ≡ shifted val (count - suc len) / 10
    step = ap (shifted val) {y = suc (count - suc len)} (omega arith)

-- the digits in front of the copy, whichever branch they come from
written :
    (val buf count : ℕ) (temp chars : ℕ → ℕ)
    → 0 < count
    → count ≤ max_digits
    → ((k : ℕ) → k < count → temp k ≡ shifted val k % 10 + digit_zero)
    → shifted val count ≡ 0
    → (1 < count → 0 < shifted val (count - 1))
    → IsDecimal val buf chars
        (count, update (copy_reversed count 0 count temp buf chars) (buf + count) 0)
unfolding shifted
written val buf count temp chars pos fits d z led = record {
  value =
      decimal-shifted new val buf count count (omega arith) at z
      ∙ ap (shifted val) {x = count - count} {y = 0} (omega arith);
  digits = λ j lt. omega (arith, at j lt);
  leading = λ lt e. omega (arith, led lt, top, e, first);
  length = (pos, fits);
  ended = update_self copied (buf + count) 0;
  frame = λ a lt.
      update_ne copied (buf + count) a 0 (omega arith)
      ∙ copy_reversed_frame count 0 count buf temp chars a (omega arith);
}
  where
    copied : ℕ → ℕ
    copied = copy_reversed count 0 count temp buf chars

    new : ℕ → ℕ
    new = update copied (buf + count) 0

    at : (j : ℕ) → j < count → new (buf + j) ≡ shifted val (count - 1 - j) % 10 + digit_zero
    at j lt =
        update_ne copied (buf + count) (buf + j) 0 (omega arith)
        ∙ copy_reversed_at count 0 count buf temp chars j (omega arith) (omega arith)
        ∙ d (count - 1 - j) (omega arith)

    first : new buf ≡ shifted val (count - 1) % 10 + digit_zero
    first =
        ap new {y = buf + 0} (omega arith)
        ∙ at 0 pos
        ∙ ap (λ k. shifted val k % 10 + digit_zero) {y = count - 1} (omega arith)

    top : shifted val (count - 1) < 10
    top = omega (arith, sym z ∙ ap (shifted val) {y = suc (count - 1)} (omega arith))

IsSplit-IsDecimal :
    (val buf : ℕ) (r : ℕ × (ℕ → ℕ)) (chars : ℕ → ℕ)
    → IsSplit (suc val) 0 (λ k. 0) r
    → r.0 ≤ max_digits
    → IsDecimal
        (suc val)
        buf
        chars
        (r.0, update (copy_reversed r.0 0 r.0 r.1 buf chars) (buf + r.0) 0)
unfolding shifted
IsSplit-IsDecimal val buf (n, temp) chars s le =
    written (suc val) buf n temp chars (ground (arith, s.whole, same)) le
      (λ k lt. ap temp {y = 0 + k} (omega arith) ∙ s.digits k (omega (arith, same)))
      (ap (shifted (suc val)) same ∙ s.whole) (λ lt. s.led (n - 1) (omega (arith, same)))
  where
    same : n ≡ s.count
    same = omega (arith, s.until)

itoa_fast_run :
    (val buf : ℕ) (chars : ℕ → ℕ) (r : ℕ × (ℕ → ℕ))
    → digits_loop max_digits (suc val) 0 (λ k. 0) ≡ some r
    → itoa_fast (suc val) buf chars
      ≡ some (r.0, update (copy_reversed r.0 0 r.0 r.1 buf chars) (buf + r.0) 0)
unfolding itoa_fast
itoa_fast_run val buf chars r e = rw (==_of_ne (suc val) 0 (omega arith), e, itoa_fast) refl

-- `lz_itoa_fast` on a number of 0 to 2^31 - 1, which is not negative as an `int`: its loop ends
-- within 10 rounds, and it writes 1 to 10 digits that read back as the number, the first of them
-- not 0 unless it is the only one, and NUL behind them. In front of them the array is as it was.
pub itoa_fast-IsDecimal :
    (val buf : ℕ) (chars : ℕ → ℕ)
    → val < 2 ^ 31
    → (r : ℕ × (ℕ → ℕ)) × (itoa_fast val buf chars ≡ some r) × IsDecimal val buf chars r
unfolding itoa_fast shifted
itoa_fast-IsDecimal zero buf chars h = (
  _,
  refl,
  written 0 buf 1 (update (λ k. 0) 0 digit_zero) chars (omega arith) (omega arith)
      (λ k lt. ground arith) refl (λ lt. absurd (omega arith)),
)
itoa_fast-IsDecimal (suc val) buf chars h =
    let (r, e, s, le) = digits_loop-IsSplit max_digits (suc val) 0 (λ k. 0) (omega arith) h in
    (_, itoa_fast_run val buf chars r e, IsSplit-IsDecimal val buf r chars s le)
