-- ===== src/Span.antt =====
-- span.c: allocations of whole 4 KB pages within a chunk. Page 0 holds the chunk's metadata.
pub mod Bitmap
pub mod Find
pub mod Steps
pub mod Contiguous
pub mod Engine
pub mod Sums
pub mod Valid
pub mod Count
pub mod Links
use lzmalloc.Base.{
  ℕ, zero, suc, ◌+◌, ◌*◌, ◌-◌, ◌/◌, ◌%◌, ◌^◌, bit_and, bit_or, Option, none, some, ◌==◌,
  if◌then◌else◌, update,
}
use lzmalloc.Config.{span_bitmap_words}
use lzmalloc.Word.{u32, not64, ◌<<<◌}

abbrev pub Bitmap : Type 0
Bitmap = ℕ → ℕ

-- the bit of page `j`: `free_bitmap[j / 64] &= ~(1ULL << (j % 64))`
unfoldable pub mark_used : ℕ → Bitmap → Bitmap
mark_used j bm = update bm (j / 64) (bit_and (bm (j / 64)) (not64 (1 <<< (j % 64))))

-- `free_bitmap[j / 64] |= (1ULL << (j % 64))`
unfoldable pub mark_free : ℕ → Bitmap → Bitmap
mark_free j bm = update bm (j / 64) (bit_or (bm (j / 64)) (1 <<< (j % 64)))

-- the marking loops over `left` pages from page `j`
unfoldable pub mark_all_used : ℕ → ℕ → Bitmap → Bitmap
unfolding mark_used
mark_all_used zero j bm = bm
mark_all_used (suc left) j bm = mark_all_used left (j + 1) (mark_used j bm)

unfoldable pub mark_all_free : ℕ → ℕ → Bitmap → Bitmap
unfolding mark_free
mark_all_free zero j bm = bm
mark_all_free (suc left) j bm = mark_all_free left (j + 1) (mark_free j bm)

-- How far the search got: it returns the start of a match, or goes on with the length of the
-- current run and the start of that run. `none` is the start -1.
pub data Search : Type 0 where
  found : Option ℕ → Search
  searching : (consecutive : ℕ) (start_idx : Option ℕ) → Search

-- the inner loop, over `left` bits of word `i` from bit `bit`
unfoldable pub scan_word : (required i word left bit consecutive : ℕ) → Option ℕ → Search
scan_word required i word zero bit consecutive start_idx = searching consecutive start_idx
scan_word required i word (suc left) bit consecutive start_idx =
    let start = if consecutive == 0 then some (i * 64 + bit) else start_idx in
    let run = u32 (consecutive + 1) in
    let used = scan_word required i word left (bit + 1) 0 start_idx in
    let more = scan_word required i word left (bit + 1) run start in
    if bit_and word (1 <<< bit) == 0 then used else if run == required then found start else more

-- the outer loop, over `left` words from word `i`
unfoldable pub scan_words : (required : ℕ) → Bitmap → (left i consecutive : ℕ) → Option ℕ → Search
scan_words required bm zero i consecutive start_idx = searching consecutive start_idx
scan_words required bm (suc left) i consecutive start_idx =
    let skipped = scan_words required bm left (i + 1) 0 start_idx in
    let scanned =
      let word = scan_word required i (bm i) 64 0 consecutive start_idx in
      let next = λ (c : ℕ) (s : Option ℕ). scan_words required bm left (i + 1) c s in
      let r : Search = elim word [ found s ↦ found s | searching c s ↦ next c s ] in r in
    if bm i == 0 then skipped else scanned

-- `find_contiguous_pages`: the page index, `none` for -1, and the bitmap with the match marked
unfoldable pub find_contiguous_pages : ℕ → Bitmap → Option ℕ × Bitmap
unfolding scan_words mark_all_used
find_contiguous_pages required bm = elim (scan_words required bm span_bitmap_words 0 0 none) [
  | found none ↦ (none, bm)
  | found (some page) ↦ (some page, mark_all_used required page bm)
  | searching c s ↦ (none, bm)
]
