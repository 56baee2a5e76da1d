-- ===== src/Span/Contiguous.antt =====
-- The whole of `find_contiguous_pages`, with the pages that it marks.
use lzmalloc.Base.{
  ℕ, ◌+◌, ◌≤◌, ◌<◌, ◌≡◌, refl, sym, subst, arith, Option, none, some, if◌then◌else◌,
}
use lzmalloc.Config.{span_total_pages, span_bitmap_words}
use lzmalloc.Span.{
  Bitmap, Search, found, searching, scan_words, find_contiguous_pages, mark_all_used,
}
use lzmalloc.Span.Bitmap.{page_bit, page_bit-mark_all_used, in_run}
use lzmalloc.Span.Find.{Progress, scan_words-Progress}
use lzmalloc.Span.Steps.{Blocked, FirstFit, Scanned}

-- A result of the search: the first fit with its pages marked, or no fit and no change.
abbrev pub Finds : ℕ → Bitmap → Option ℕ → Bitmap → Type 0
Finds n bm (some page) bm' =
    FirstFit bm n page × ((p : ℕ) → page_bit bm' p ≡ (if in_run page n p then 0 else page_bit bm p))
Finds n bm none bm' = ((t : ℕ) → t + n ≤ span_total_pages → Blocked bm t n) × (bm' ≡ bm)

-- For fewer than 512 pages, at least one, `find_contiguous_pages` returns the lowest page at which
-- that many free pages lie in the chunk, and marks these pages and no others; it returns -1, with
-- the bitmap as it was, only if every run of that many pages in the chunk has a page in use.
pub find_contiguous_pages-Finds :
    (n : ℕ) (bm : Bitmap)
    → 0 < n
    → n < span_total_pages
    → Finds n bm (find_contiguous_pages n bm).0 (find_contiguous_pages n bm).1
unfolding find_contiguous_pages
find_contiguous_pages-Finds n bm pos small =
    from (scan_words n bm span_bitmap_words 0 0 none)
      (scan_words-Progress bm n 8 0 0 none refl small start)
  where
    start : Scanned bm n 0 0 none
    start = record {
      short = pos;
      within = omega arith;
      run = λ p lo hi. absurd (omega arith);
      maximal = λ lt. absurd (omega arith);
      started = λ lt. absurd (omega arith);
      none_yet = λ t le. absurd (omega (arith, pos));
    }

    result : Search → Option ℕ × Bitmap
    result r = elim r [
      | found none ↦ (none, bm)
      | found (some page) ↦ (some page, mark_all_used n page bm)
      | searching c s ↦ (none, bm)
    ]

    from : (r : Search) → Progress bm n span_total_pages r → Finds n bm (result r).0 (result r).1
    from (found none) (page, e, fit) = absurd (ground (arith, e))
    from (found (some q)) (page, e, fit) =
        let same : q ≡ page = ground (arith, e) in
        (subst (FirstFit bm n) (sym same) fit, λ p. page_bit-mark_all_used n q p bm)
    from (searching c s) h = (h.none_yet, refl)
