-- ===== src/Sizes/Classes.antt =====
-- The size classes are adequate: every request gets the least class that holds it.
use native.Mathlib.Nat.{pow-suc, add-zero}
use lzmalloc.Base.{
  ℕ, zero, suc, ◌+◌, ◌-◌, ◌*◌, ◌/◌, ◌^◌, ◌≤◌, ◌<◌, ◌≡◌, ◌↔◌, arith, ap, ap₂, sym, ◌∙◌, refl,
  Bool-cases, inl, inr, ltb, leb, leb→le, ltb→lt, check_below, check_below-at, ◌==◌, ==_iff, true,
}
use lzmalloc.Config.{max_size_classes}
use lzmalloc.Sizes.{fls, clz, size_to_class, class_to_size}
use lzmalloc.Sizes.Form.{
  max_class_size, IsStep, size_to_class_linear, size_to_class_log, class_to_size_linear,
  class_to_size_log,
}

increasing_table : check_below 87 (λ c. ltb (class_to_size c) (class_to_size (c + 1))) ≡ true
unfolding check_below class_to_size
increasing_table = refl

class_to_size_step : (c : ℕ) → c < 87 → class_to_size c < class_to_size (c + 1)
class_to_size_step c h = ltb→lt _ _ (check_below-at 87 _ c increasing_table h)

-- larger classes hold larger blocks
class_to_size_mono :
    (d b c : ℕ) → b + d ≡ c → c < max_size_classes → class_to_size b ≤ class_to_size c
class_to_size_mono zero b c e h = omega (arith, ap class_to_size (sym (add-zero b) ∙ e))
class_to_size_mono (suc d) b c e h =
    let step = class_to_size_step (b + d) (omega arith) in
    let last : b + d + 1 ≡ c = omega arith in
    omega (arith, class_to_size_mono d b (b + d) refl (omega arith), step, ap class_to_size last)

-- the class under the one of a request on the logarithmic scale
class_to_size_below : (s n q : ℕ) → IsStep s n q → class_to_size (4 * n + q - 17) ≤ s
class_to_size_below s n q step = elim (Bool-cases (q == 4)) [
  | inr e ↦
      let more : 5 ≤ q = ground arith in
      let at = class_to_size_log n (q - 1) step.n_low step.n_high (omega arith) (omega arith) in
      let same : class_to_size (4 * n + (q - 1) - 16) ≡ class_to_size (4 * n + q - 17) =
        ap class_to_size (omega arith) in
      let quarters : (q - 1 + 1) * 2 ^ n ≡ q * 2 ^ n = ap (λ t. t * 2 ^ n) (omega arith) in
      omega (arith, at, same, quarters, step.low)
  | inl e ↦ first ((==_iff _ _).0 e)
]
  where
    first : q ≡ 4 → class_to_size (4 * n + q - 17) ≤ s
    first four = elim (Bool-cases (n == 5)) [
      | inl e ↦
          let five : n ≡ 5 = (==_iff _ _).0 e in
          let low : q * 2 ^ n ≡ 4 * 2 ^ 5 = ap₂ (λ a b. a * 2 ^ b) four five in
          let same : class_to_size (4 * n + q - 17) ≡ class_to_size 7 =
            ap class_to_size (omega arith) in
          omega (arith, same, class_to_size_linear 7 (omega arith), low, step.low)
      | inr e ↦
          let more : 6 ≤ n = ground arith in
          let at =
            class_to_size_log (n - 1) 7 (omega arith) (omega arith) (omega arith) (omega arith) in
          let same : class_to_size (4 * (n - 1) + 7 - 16) ≡ class_to_size (4 * n + q - 17) =
            ap class_to_size (omega arith) in
          let double : 2 ^ n ≡ 2 ^ (n - 1) * 2 =
            ap (λ t. 2 ^ t) (omega arith) ∙ pow-suc 2 (n - 1) in
          let low : q * 2 ^ n ≡ 4 * 2 ^ n = ap (λ t. t * 2 ^ n) four in
          omega (arith, at, same, double, low, step.low)
    ]

-- a class holds its requests, and the one below does not
pub record Fits (size c : ℕ) : Type 0 where
  pub bound : c < max_size_classes
  pub holds : size ≤ class_to_size c
  pub tight : (b : ℕ) → c ≡ suc b → class_to_size b < size

size_to_class-Fits : (s : ℕ) → s < max_class_size → Fits (suc s) (size_to_class (suc s))
size_to_class-Fits s h = elim (Bool-cases (ltb s 128)) [
  | inl e ↦ linear (ltb→lt _ _ e)
  | inr e ↦ let (n, q, step, form) = size_to_class_log s (ground arith) h in rw form (log n q step)
]
  where
    linear : s < 128 → Fits (suc s) (size_to_class (suc s))
    linear lt = rw (size_to_class_linear s lt) (record {
      bound = omega arith;
      holds = omega (arith, class_to_size_linear (s / 16) (omega arith));
      tight = λ b e. omega (arith, class_to_size_linear b (omega arith));
    })

    log : (n q : ℕ) → IsStep s n q → Fits (suc s) (4 * n + q - 16)
    log n q step =
        let size = class_to_size_log n q step.n_low step.n_high step.q_low step.q_high in
        record {
          bound = omega arith;
          holds = omega (arith, size, step);
          tight = λ b e.
              let same : class_to_size (4 * n + q - 17) ≡ class_to_size b =
                ap class_to_size (omega arith) in
              omega (arith, class_to_size_below s n q step, same);
        }

-- The class chosen for a request is the least one whose blocks hold it: for requests from one
-- byte to `2 ^ 27` bytes, a class index is at least the chosen one exactly when its block size is
-- at least the request.
pub size_to_class_le_iff :
    (size c : ℕ)
    → 0 < size
    → size ≤ max_class_size
    → c < max_size_classes
    → (size_to_class size ≤ c) ↔ (size ≤ class_to_size c)
size_to_class_le_iff zero c pos h hc = absurd (omega arith)
size_to_class_le_iff (suc s) c pos h hc = (
  λ le. omega (arith, fits, class_to_size_mono (c - chosen) chosen c (omega arith) hc),
  λ holds. elim (Bool-cases (leb chosen c)) [
    | inl e ↦ leb→le _ _ e
    | inr e ↦
        let below : c < chosen = ground arith in
        let mono =
          class_to_size_mono (chosen - 1 - c) c (chosen - 1) (omega arith)
            (omega (arith, fits.bound)) in
        absurd (omega (arith, mono, fits.tight (chosen - 1) (omega arith)))
  ],
)
  where
    chosen : ℕ
    chosen = size_to_class (suc s)

    fits : Fits (suc s) chosen
    fits = size_to_class-Fits s h

round_trip_table : check_below 88 (λ c. size_to_class (class_to_size c) == c) ≡ true
unfolding check_below size_to_class class_to_size fls clz
round_trip_table = refl

-- A request of exactly a class's block size gets that class, for each of the 88 classes.
pub size_to_class-class_to_size :
    (c : ℕ) → c < max_size_classes → size_to_class (class_to_size c) ≡ c
size_to_class-class_to_size c h = (==_iff _ _).0 (check_below-at 88 _ c round_trip_table h)
