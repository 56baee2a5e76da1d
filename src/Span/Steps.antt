-- ===== src/Span/Steps.antt =====
-- The search for free pages, one page at a time.
use lzmalloc.Base.{
  ℕ, suc, ◌+◌, ◌-◌, ◌≤◌, ◌<◌, ◌≡◌, ◌≢◌, inl, inr, arith, ap, ◌∙◌, subst, Option, some, ◌==◌, ==_iff,
  leb, if◌then◌else◌, Bool-cases, leb→le,
}
use lzmalloc.Config.{span_total_pages}
use lzmalloc.Span.{Bitmap}
use lzmalloc.Span.Bitmap.{page_bit}

-- some page of the `n` pages from `t` is in use
abbrev pub Blocked : Bitmap → ℕ → ℕ → Type 0
Blocked bm t n = (p : ℕ) × (t ≤ p) × (p < t + n) × (page_bit bm p ≡ 0)

-- the `n` pages from `page` are free, lie in the chunk, and no earlier run is free
pub record FirstFit (bm : Bitmap) (n page : ℕ) : Type 0 where
  pub inside : page + n ≤ span_total_pages
  pub free : (p : ℕ) → page ≤ p → p < page + n → page_bit bm p ≡ 1
  pub first : (t : ℕ) → t < page → Blocked bm t n

-- The search has looked at the pages below `pos`: the last `c` of them are free and the one before
-- is not, and no run within them is long enough.
pub record Scanned (bm : Bitmap) (n pos c : ℕ) (start : Option ℕ) : Type 0 where
  pub short : c < n
  pub within : c ≤ pos
  pub run : (p : ℕ) → pos ≤ p + c → p < pos → page_bit bm p ≡ 1
  pub maximal : c < pos → page_bit bm (pos - suc c) ≡ 0
  pub started : 0 < c → start ≡ some (pos - c)
  pub none_yet : (t : ℕ) → t + n ≤ pos → Blocked bm t n

module _ (bm : Bitmap) (n : ℕ) where
  pub used_step :
      (pos c : ℕ) (s : Option ℕ)
      → Scanned bm n pos c s
      → page_bit bm pos ≡ 0
      → Scanned bm n (pos + 1) 0 s
  used_step pos c s h used = record {
    short = omega (arith, h.short);
    within = omega arith;
    run = λ p lo hi. absurd (omega arith);
    maximal = λ lt. subst (λ t. page_bit bm t ≡ 0) {x = pos} {y = pos + 1 - 1} (omega arith) used;
    started = λ lt. absurd (omega arith);
    none_yet = λ t e. elim (Bool-cases (leb (t + n) pos)) [
      | inl le ↦ h.none_yet t (leb→le _ _ le)
      | inr gt ↦ (pos, ground (arith, h.short), ground (arith, h.short), used)
    ];
  }

  pub free_step :
      (pos c : ℕ) (s : Option ℕ)
      → Scanned bm n pos c s
      → page_bit bm pos ≡ 1
      → c + 1 ≢ n
      → Scanned bm n (pos + 1) (c + 1) (if c == 0 then some pos else s)
  free_step pos c s h free ne = record {
    short = omega (arith, h.short);
    within = omega (arith, h.within);
    run = λ p lo hi. elim (Bool-cases (p == pos)) [
      | inl e ↦ ap (page_bit bm) ((==_iff _ _).0 e) ∙ free
      | inr e ↦ h.run p (omega arith) (ground arith)
    ];
    maximal = λ lt.
        subst (λ t. page_bit bm t ≡ 0) {x = pos - suc c} {y = pos + 1 - suc (c + 1)} (omega arith)
          (h.maximal (omega arith));
    started = λ lt. ground (arith, h.started);
    none_yet = λ t e. elim (Bool-cases (leb (t + n) pos)) [
      | inl le ↦ h.none_yet t (leb→le _ _ le)
      | inr gt ↦
          let over : pos < t + n = ground arith in
          (
            pos - suc c,
            omega (arith, h.short, ne),
            omega arith,
            h.maximal (omega (arith, h.short, ne)),
          )
    ];
  }

  pub hit_step :
      (pos c : ℕ) (s : Option ℕ)
      → Scanned bm n pos c s
      → page_bit bm pos ≡ 1
      → c + 1 ≡ n
      → pos < span_total_pages
      → (page : ℕ) × ((if c == 0 then some pos else s) ≡ some page) × FirstFit bm n page
  hit_step pos c s h free e lt = (
    pos - c,
    ground (arith, h.started),
    record {
      inside = omega (arith, h.within);
      free = λ p lo hi. elim (Bool-cases (p == pos)) [
        | inl here ↦ ap (page_bit bm) ((==_iff _ _).0 here) ∙ free
        | inr away ↦
            let ne : p ≢ pos = ground arith in
            h.run p (omega (arith, h.within)) (omega (arith, h.within, ne, e))
      ];
      first = λ t lt. elim (Bool-cases (leb (t + n) pos)) [
        | inl le ↦ h.none_yet t (leb→le _ _ le)
        | inr gt ↦
            let over : pos < t + n = ground arith in
            (pos - suc c, omega arith, omega arith, h.maximal (omega arith))
      ];
    },
  )
