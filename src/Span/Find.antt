-- ===== src/Span/Find.antt =====
-- `find_contiguous_pages` finds the first run of free pages that is long enough, or there is none.
use lzmalloc.Base.{
  ℕ, zero, suc, ◌+◌, ◌*◌, ◌-◌, ◌/◌, ◌%◌, ◌^◌, ◌≤◌, ◌<◌, ◌≡◌, ◌≢◌, inl, inr, refl, arith, ap, ap₂,
  ◌∙◌, subst, bit_and, Option, some, ◌==◌, ==_iff, leb, Bool-cases, leb→le,
}
use lzmalloc.Bits.{bit, bit-le-one, bit_zero}
use lzmalloc.Config.{span_total_pages}
use lzmalloc.Span.{Bitmap, Search, found, searching, scan_word, scan_words}
use lzmalloc.Span.Bitmap.{page_bit, test_bit_iff}
use lzmalloc.Word.{u32}
use lzmalloc.Span.Steps.{FirstFit, Scanned, used_step, free_step, hit_step}

module _ (bm : Bitmap) (n : ℕ) where
  -- what the search promises with the pages below `pos` behind it
  abbrev pub Progress : ℕ → Search → Type 0
  Progress pos (found s) = (page : ℕ) × (s ≡ some page) × FirstFit bm n page
  Progress pos (searching c s) = Scanned bm n pos c s

  Scanned-pos :
      (pos pos' c : ℕ) (s : Option ℕ) → pos ≡ pos' → Scanned bm n pos c s → Scanned bm n pos' c s
  Scanned-pos pos pos' c s e = subst (λ t. Scanned bm n t c s) e

  page_at : (i b : ℕ) → b < 64 → page_bit bm (i * 64 + b) ≡ bit (bm i) b
  page_at i b lt = ap₂ (λ w k. bit (bm w) k) word_at bit_at
    where
      word_at : (i * 64 + b) / 64 ≡ i
      word_at = omega arith

      bit_at : (i * 64 + b) % 64 ≡ b
      bit_at = omega arith

  scan_word-Progress :
      (i left b c : ℕ) (s : Option ℕ)
      → b + left ≡ 64
      → i < 8
      → n < span_total_pages
      → Scanned bm n (i * 64 + b) c s
      → Progress ((i + 1) * 64) (scan_word n i (bm i) left b c s)
  unfolding scan_word
  scan_word-Progress i zero b c s e hi hn h =
      Scanned-pos (i * 64 + b) ((i + 1) * 64) c s (omega arith) h
  scan_word-Progress i (suc left) b c s e hi hn h =
      elim (Bool-cases (bit_and (bm i) (1 * 2 ^ b) == 0)) [
        | inl t ↦
            let used : page_bit bm pos ≡ 0 = page_at i b lt ∙ (test_bit_iff (bm i) b).0 t in
            rw t (
              scan_word-Progress i left (b + 1) 0 s (omega arith) hi hn (
                Scanned-pos (pos + 1) (i * 64 + (b + 1)) 0 s (omega arith)
                  (used_step bm n pos c s h used)))
        | inr t ↦
            let free : page_bit bm pos ≡ 1 =
              ground (arith, page_at i b lt, test_bit_iff (bm i) b, bit-le-one (bm i) b) in
            rw (t, count)
              (elim (Bool-cases (c + 1 == n)) [
                | inl last ↦
                    rw last (hit_step bm n pos c s h free ((==_iff _ _).0 last) (omega arith))
                | inr more ↦
                    let ne : c + 1 ≢ n = ground arith in
                    rw more (
                      scan_word-Progress i left (b + 1) (c + 1) _ (omega arith) hi hn (
                        Scanned-pos (pos + 1) (i * 64 + (b + 1)) (c + 1) _ (omega arith)
                          (free_step bm n pos c s h free ne)))
              ])
      ]
    where
      pos : ℕ
      pos = i * 64 + b

      lt : b < 64
      lt = omega arith

      count : u32 (c + 1) ≡ c + 1
      count = omega (arith, h.short)

  -- a word of no free page is passed over whole
  skip_word :
      (i c : ℕ) (s : Option ℕ)
      → bm i ≡ 0
      → Scanned bm n (i * 64) c s
      → Scanned bm n ((i + 1) * 64) 0 s
  skip_word i c s e h = record {
    short = omega (arith, h.short);
    within = omega arith;
    run = λ p lo hi. absurd (omega arith);
    maximal = λ lt. used ((i + 1) * 64 - 1) (omega arith) (omega arith);
    started = λ lt. absurd (omega arith);
    none_yet = λ t le. elim (Bool-cases (leb (t + n) (i * 64))) [
      | inl before ↦ h.none_yet t (leb→le _ _ before)
      | inr over ↦
          let gt : i * 64 < t + n = ground arith in
          elim (Bool-cases (leb t (i * 64))) [
            | inl a ↦ (i * 64, leb→le _ _ a, gt, used (i * 64) (omega arith) (omega arith))
            | inr a ↦
                let lt : i * 64 < t = ground arith in
                (
                  t,
                  omega arith,
                  omega (arith, h.short),
                  used t (omega arith) (omega (arith, h.short)),
                )
          ]
    ];
  }
    where
      used : (p : ℕ) → i * 64 ≤ p → p < (i + 1) * 64 → page_bit bm p ≡ 0
      used p lo hi =
          ap (λ k. bit (bm k) (p % 64)) word_at ∙ ap (λ w. bit w (p % 64)) e ∙ bit_zero (p % 64)
        where
          word_at : p / 64 ≡ i
          word_at = omega arith

  pub scan_words-Progress :
      (left i c : ℕ) (s : Option ℕ)
      → i + left ≡ 8
      → n < span_total_pages
      → Scanned bm n (i * 64) c s
      → Progress span_total_pages (scan_words n bm left i c s)
  unfolding scan_words
  scan_words-Progress zero i c s e hn h = Scanned-pos (i * 64) span_total_pages c s (omega arith) h
  scan_words-Progress (suc left) i c s e hn h = elim (Bool-cases (bm i == 0)) [
    | inl empty ↦ rw empty (
        scan_words-Progress left (i + 1) 0 s (omega arith) hn
          (skip_word i c s ((==_iff (bm i) 0).0 empty) h))
    | inr some_free ↦ rw some_free (
        after (scan_word n i (bm i) 64 0 c s)
          (λ c' s'. scan_words-Progress left (i + 1) c' s' (omega arith) hn)
          (scan_word-Progress i 64 0 c s refl (omega arith) hn
            (Scanned-pos (i * 64) (i * 64 + 0) c s (omega arith) h)))
  ]
    where
      after :
          (r : Search)
          → ((c' : ℕ) (s' : Option ℕ)
              → Scanned bm n ((i + 1) * 64) c' s'
              → Progress span_total_pages (scan_words n bm left (i + 1) c' s'))
          → Progress ((i + 1) * 64) r
          → Progress span_total_pages (elim r [
            | found s' ↦ found s'
            | searching c' s' ↦ scan_words n bm left (i + 1) c' s'
          ])
      after (found s') go p = p
      after (searching c' s') go p = go c' s' p
