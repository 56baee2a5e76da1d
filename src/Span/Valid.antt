-- ===== src/Span/Valid.antt =====
-- The well-formedness of a span, kept by claiming free pages and by releasing an allocation.
use lzmalloc.Base.{ℕ, ◌+◌, ◌≤◌, ◌<◌, ◌≡◌, ◌≢◌, ◌∙◌, arith, if◌then◌else◌, update, ◌%◌, ◌^◌}
use lzmalloc.Config.{span_total_pages}
use lzmalloc.Memory.{Span}
use lzmalloc.Span.{Bitmap, mark_all_free}
use lzmalloc.Span.Bitmap.{page_bit, page_bit-mark_all_free, in_run}
use lzmalloc.Span.Engine.{release}
use lzmalloc.Span.Steps.{FirstFit}
use lzmalloc.Span.Sums.{sum, sum-update, le-sum}
use lzmalloc.Word.{u32}

-- Each allocation lies in the chunk behind page 0, all its pages are in use, no other allocation
-- starts within it, and the count of used pages is page 0 and all the allocations.
pub record SpanOk (s : Span) : Type 0 where
  pub metadata : s.alloc_size_pages 0 ≡ 0
  pub inside : (p : ℕ) → 0 < s.alloc_size_pages p → p + s.alloc_size_pages p ≤ span_total_pages
  pub busy : (p q : ℕ) → p ≤ q → q < p + s.alloc_size_pages p → page_bit s.free_bitmap q ≡ 0
  pub apart : (p q : ℕ) → p < q → q < p + s.alloc_size_pages p → s.alloc_size_pages q ≡ 0
  pub counted : s.used_pages ≡ 1 + sum span_total_pages s.alloc_size_pages
  pub capped : s.used_pages ≤ span_total_pages
  pub page_zero : page_bit s.free_bitmap 0 ≡ 0

-- the span when `n` pages from `page` are claimed and the bitmap is `bm`
abbrev pub claim : ℕ → ℕ → Bitmap → Span → Span
claim page n bm s = record s {
  free_bitmap = bm;
  used_pages = u32 (s.used_pages + n);
  alloc_size_pages = update s.alloc_size_pages page (n % 2 ^ 16);
}

module _ (s : Span) (ok : SpanOk s) where
  pub claim-SpanOk :
      (page n : ℕ) (bm : Bitmap)
      → 0 < n
      → s.used_pages + n ≤ span_total_pages
      → FirstFit s.free_bitmap n page
      → ((p : ℕ) → page_bit bm p ≡ (if in_run page n p then 0 else page_bit s.free_bitmap p))
      → SpanOk (claim page n bm s)
  claim-SpanOk page n bm pos room fit marked = record {
    metadata = ground (arith, ok.metadata, behind);
    inside = λ p lt. ground (arith, ok.inside p, fit.inside, size);
    busy = λ p q lo hi. ground (arith, ok.busy p q, marked q, size);
    apart = λ p q lo hi. ground (arith, ok.apart p q, ok.busy p q, fit.free q, bare q, size);
    counted = ground (
      arith,
      ok.counted,
      sum-update span_total_pages page (n % 2 ^ 16) s.alloc_size_pages,
      fit.inside,
      bare page,
      size,
    );
    capped = ground (arith, room);
    page_zero = marked 0 ∙ ground (arith, ok.page_zero, behind);
  }
    where
      size : n % 2 ^ 16 ≡ n
      size = omega (arith, fit.inside)

      bare : (q : ℕ) → page ≤ q → q < page + n → s.alloc_size_pages q ≡ 0
      bare q lo hi = ground (arith, ok.busy q q, fit.free q lo hi)

      behind : page ≢ 0
      behind = λ e. ground (arith, fit.free 0, ok.page_zero)

  pub release-SpanOk : (start : ℕ) → 0 < s.alloc_size_pages start → SpanOk (release start s)
  unfolding release
  release-SpanOk start pos = record {
    metadata = ground (arith, ok.metadata);
    inside = λ p lt. ground (arith, ok.inside p);
    busy = λ p q lo hi. marked q ∙ ground (arith, ok.busy p q, ok.apart p start, ok.apart start p);
    apart = λ p q lo hi. ground (arith, ok.apart p q);
    counted =
        ground (
          arith,
          ok.counted,
          ok.capped,
          sum-update span_total_pages start 0 s.alloc_size_pages,
          lt,
        );
    capped =
        ground (arith, ok.counted, ok.capped, le-sum span_total_pages start s.alloc_size_pages lt);
    page_zero = marked 0 ∙ ground (arith, ok.page_zero, ok.metadata);
  }
    where
      n : ℕ
      n = s.alloc_size_pages start

      lt : start < span_total_pages
      lt = omega (arith, ok.inside start pos)

      marked :
          (q : ℕ)
          → page_bit (mark_all_free n start s.free_bitmap) q
            ≡ (if in_run start n q then 1 else page_bit s.free_bitmap q)
      marked q = page_bit-mark_all_free n start q s.free_bitmap

-- two spans with the same pages in use and the same allocations
pub record SamePages (s t : Span) : Type 0 where
  pub bitmap : (p : ℕ) → page_bit s.free_bitmap p ≡ page_bit t.free_bitmap p
  pub sizes : (p : ℕ) → s.alloc_size_pages p ≡ t.alloc_size_pages p
  pub used : s.used_pages ≡ t.used_pages

-- Giving back the pages that were just claimed restores the span.
pub release-claim :
    (s : Span)
    → SpanOk s
    → (page n : ℕ) (bm : Bitmap) → 0 < n
    → s.used_pages + n ≤ span_total_pages
    → FirstFit s.free_bitmap n page
    → ((p : ℕ) → page_bit bm p ≡ (if in_run page n p then 0 else page_bit s.free_bitmap p))
    → SamePages (release page (claim page n bm s)) s
unfolding release
release-claim s ok page n bm pos room fit marked = record {
  bitmap = λ p. cleared p ∙ ground (arith, marked p, fit.free p, size);
  sizes = λ p. ground (arith, size, bare);
  used = ground (arith, size);
}
  where
    size : n % 2 ^ 16 ≡ n
    size = omega (arith, fit.inside)

    bare : s.alloc_size_pages page ≡ 0
    bare = ground (arith, ok.busy page page, fit.free page)

    cleared :
        (q : ℕ)
        → page_bit (mark_all_free ((claim page n bm s).alloc_size_pages page) page bm) q
          ≡ (if in_run page ((claim page n bm s).alloc_size_pages page) q then 1 else page_bit bm q)
    cleared q = page_bit-mark_all_free _ page q bm
