-- ===== src/Tests/Span.antt =====
-- Spans: a fresh one, and one with an allocation of three pages.
use lzmalloc.Bits.{bit_zero}
use lzmalloc.Base.{
  ◌*◌, ◌⊎◌, ◌%◌, ◌==◌, ==_iff, Bool-cases, ◌∷◌, [], sym, subst, inl, ℕ, ◌+◌, ◌<◌, ◌≡◌, ◌↔◌, inr,
  refl, arith, some, none, if◌then◌else◌, update,
}
use lzmalloc.Config.{span_total_pages}
use lzmalloc.Memory.{Span, World}
use lzmalloc.Span.{Bitmap, find_contiguous_pages, scan_word}
use lzmalloc.Span.Bitmap.{page_bit, in_run}
use lzmalloc.Span.Contiguous.{Finds, find_contiguous_pages-Finds}
use lzmalloc.Span.Engine.{span_of, pristine, release, span_alloc, span_free_local}
use lzmalloc.Span.Engine.Preserve.{links-SpanOk, pristine-SpanOk}
use lzmalloc.Span.Engine.Laws.{
  span_alloc-SpanOk, span_free_local-SpanOk, span_free_local_refused, used_pages-release_iff,
}
use lzmalloc.Span.Engine.Grant.{IsGranted, span_alloc-IsGranted}
use lzmalloc.Span.Engine.Active.{IsActive, IsActiveOk}
use lzmalloc.Span.Engine.Active.Alloc.{span_alloc-IsActiveOk}
use lzmalloc.Span.Engine.Active.New.{IsFresh}
use lzmalloc.Span.Engine.Active.Free.{span_free_local-IsActiveOk}
use lzmalloc.Vmm.{
  vmm_alloc_chunk, trim_extent, alloc_global, pop_global, sys_alloc_extent, push_chunks,
}
use lzmalloc.Topology.{get_current_node}
use lzmalloc.Word.{align_up}
use lzmalloc.Span.Engine.Twice.{span_free_local_twice}
use lzmalloc.Span.Engine.Life.{span_free_local-span_alloc}
use lzmalloc.Span.Engine.Walk.{AllOk, first_room, serve, span_alloc-serve}
use lzmalloc.Span.Steps.{FirstFit}
use lzmalloc.Span.Sums.{sum}
use lzmalloc.Span.Valid.{SpanOk, SamePages, claim, claim-SpanOk, release-claim}
use lzmalloc.Tests.World.{world0}

find_first : (find_contiguous_pages 3 pristine).0 ≡ some 1
unfolding find_contiguous_pages scan_word
find_first = refl

find_second : (find_contiguous_pages 100 (find_contiguous_pages 3 pristine).1).0 ≡ some 4
unfolding find_contiguous_pages scan_word
find_second = refl

find_none : (find_contiguous_pages 512 pristine).0 ≡ none
unfolding find_contiguous_pages scan_word
find_none = refl

find_contiguous_pages-Finds_example :
    Finds 3 pristine (find_contiguous_pages 3 pristine).0 (find_contiguous_pages 3 pristine).1
find_contiguous_pages-Finds_example =
    find_contiguous_pages-Finds 3 pristine (omega arith) (omega arith)

abbrev fresh : Span
fresh = record {
  next = 0;
  prev = 0;
  free_bitmap = pristine;
  used_pages = 1;
  alloc_size_pages = λ i. 0;
}

fresh-SpanOk : SpanOk fresh
fresh-SpanOk = pristine-SpanOk 0 0

abbrev found_bitmap : Bitmap
found_bitmap = (find_contiguous_pages 3 pristine).1

abbrev Found : Type 0
Found =
    FirstFit pristine 3 1
    × ((p : ℕ) → page_bit found_bitmap p ≡ (if in_run 1 3 p then 0 else page_bit pristine p))

found_three : Found
unfolding find_contiguous_pages scan_word
found_three = find_contiguous_pages-Finds 3 pristine (omega arith) (omega arith)

abbrev three : Span
three = claim 1 3 found_bitmap fresh

three-SpanOk : SpanOk three
three-SpanOk =
    claim-SpanOk fresh fresh-SpanOk 1 3 found_bitmap (omega arith) (omega arith) found_three.0
      found_three.1

release-claim_at : SamePages (release 1 (claim 1 3 found_bitmap fresh)) fresh
release-claim_at =
    release-claim fresh fresh-SpanOk 1 3 found_bitmap (omega arith) (omega arith) found_three.0
      found_three.1

used_pages-release_iff_at :
    ((release 1 three).used_pages ≡ 1)
    ↔ ((p : ℕ) → p < span_total_pages → (release 1 three).alloc_size_pages p ≡ 0)
used_pages-release_iff_at = used_pages-release_iff three 1 three-SpanOk (omega arith)

-- the chunk at 2 MB holds that span
abbrev chunk : ℕ
chunk = 2097152

abbrev with_three : World
with_three = record world0 {
  spans = update world0.spans (chunk + 64) three;
  tlhs = update world0.tlhs 8192 (record (world0.tlhs 8192) { active_spans = chunk + 64 });
}

span_alloc-SpanOk_example : SpanOk ((span_alloc 1 8192 40000 with_three).1.spans (chunk + 64))
span_alloc-SpanOk_example =
    span_alloc-SpanOk 1 8192 40000 (chunk + 64) with_three (omega arith) (omega arith) three-SpanOk

span_free_local-SpanOk_example :
    SpanOk ((span_free_local 8192 chunk (chunk + 4096) with_three).spans (chunk + 64))
span_free_local-SpanOk_example =
    span_free_local-SpanOk 8192 chunk (chunk + 4096) (chunk + 64) with_three three-SpanOk

-- page 2 lies within the allocation, and none starts there
span_free_local_refused_at : span_free_local 8192 chunk (chunk + 8192) with_three ≡ with_three
span_free_local_refused_at =
    span_free_local_refused 8192 chunk (chunk + 8192) with_three (inr (inr refl))

span_alloc-IsGranted_example :
    ((span_alloc 1 8192 40000 with_three).0 ≡ 0)
    ⊎ ((c : ℕ) × (p : ℕ) × IsGranted 8192 10 c p
          (span_alloc 1 8192 40000 with_three).0
          with_three
          (span_alloc 1 8192 40000 with_three).1)
span_alloc-IsGranted_example =
    span_alloc-IsGranted 1 8192 40000 with_three (omega arith) (omega arith)

-- the span of three pages stands behind a full one: it is the second that serves
abbrev full_chunk : ℕ
full_chunk = 4194304

abbrev full : Span
full = record {
  next = chunk + 64;
  prev = 0;
  free_bitmap = λ i. 0;
  used_pages = 512;
  alloc_size_pages = update (λ i. 0) 1 511;
}

abbrev two_spans : World
two_spans = record with_three {
  spans =
      update (update with_three.spans (full_chunk + 64) full) (chunk + 64)
        (record three { prev = full_chunk + 64 });
  tlhs = update with_three.tlhs 8192 (record (world0.tlhs 8192) { active_spans = full_chunk + 64 });
}

full-SpanOk : SpanOk full
unfolding sum
full-SpanOk = record {
  metadata = refl;
  inside = λ p lt. ground arith;
  busy = λ p q lo hi. bit_zero (q % 64);
  apart = λ p q lo hi. ground arith;
  counted = refl;
  capped = omega arith;
  page_zero = refl;
}

two_spans-AllOk : AllOk two_spans.spans ((full_chunk + 64) ∷ (chunk + 64) ∷ [])
two_spans-AllOk a h = elim (Bool-cases (a == full_chunk + 64)) [
  | inl e ↦ subst (λ x. SpanOk (two_spans.spans x)) (sym ((==_iff _ _).0 e)) full-SpanOk
  | inr e ↦
      let here : a ≡ chunk + 64 = ground (arith, h, e) in
      subst (λ x. SpanOk (two_spans.spans x)) (sym here)
        (links-SpanOk three three.next (full_chunk + 64) three-SpanOk)
]

two_spans-IsActive : IsActive 8192 ((full_chunk + 64) ∷ (chunk + 64) ∷ []) two_spans
two_spans-IsActive =
    (refl, λ e. omega (arith, e), refl, refl, (refl, λ e. omega (arith, e), refl, refl, refl))

next_chunk : (vmm_alloc_chunk two_spans).0 ≡ 67108864
unfolding vmm_alloc_chunk get_current_node alloc_global pop_global sys_alloc_extent push_chunks
    trim_extent align_up
next_chunk = refl

two_spans-IsFresh : IsFresh ((full_chunk + 64) ∷ (chunk + 64) ∷ []) two_spans
two_spans-IsFresh ne = (ground (arith, next_chunk), ground (arith, next_chunk))

span_alloc-IsActiveOk_example :
    let w' = (span_alloc 3 8192 40000 two_spans).1 in
    IsActiveOk 8192 ((full_chunk + 64) ∷ (chunk + 64) ∷ []) w'
    ⊎ IsActiveOk 8192
        (span_of (vmm_alloc_chunk two_spans).0 ∷ (full_chunk + 64) ∷ (chunk + 64) ∷ [])
        w'
span_alloc-IsActiveOk_example =
    span_alloc-IsActiveOk 3 8192 40000 ((full_chunk + 64) ∷ (chunk + 64) ∷ []) two_spans
      (omega arith) (omega arith) two_spans-IsFresh (two_spans-IsActive, two_spans-AllOk)

-- the three pages are freed, and the span is destroyed
span_free_local-IsActiveOk_example :
    let w' = span_free_local 8192 chunk (chunk + 4096) two_spans in
    IsActiveOk 8192 ((full_chunk + 64) ∷ (chunk + 64) ∷ []) w'
    ⊎ IsActiveOk 8192 ((full_chunk + 64) ∷ []) w'
span_free_local-IsActiveOk_example =
    span_free_local-IsActiveOk 8192 chunk (chunk + 4096) ((full_chunk + 64) ∷ []) [] two_spans
      (two_spans-IsActive, two_spans-AllOk)

span_alloc-serve_example :
    span_alloc 3 8192 40000 two_spans
    ≡ serve 8192 10 two_spans
        (first_room 10 two_spans.spans ((full_chunk + 64) ∷ (chunk + 64) ∷ []))
span_alloc-serve_example =
    span_alloc-serve 3 8192 40000 ((full_chunk + 64) ∷ (chunk + 64) ∷ []) two_spans (omega arith)
      (omega arith) (omega arith)
      (refl, λ e. omega (arith, e), refl, (refl, λ e. omega (arith, e), refl, refl)) two_spans-AllOk

first_room_second :
    first_room 10 two_spans.spans ((full_chunk + 64) ∷ (chunk + 64) ∷ []) ≡ some (chunk + 64, 4)
unfolding first_room find_contiguous_pages scan_word
first_room_second = refl

span_free_local-span_alloc_example :
    let (addr, w') = span_alloc 3 8192 40000 two_spans in
    (addr ≡ chunk + 4 * 4096)
    × SamePages
        ((span_free_local 8192 chunk addr w').spans (span_of chunk))
        (two_spans.spans (span_of chunk))
span_free_local-span_alloc_example =
    span_free_local-span_alloc 3 8192 40000 ((full_chunk + 64) ∷ (chunk + 64) ∷ []) chunk 4
      two_spans (omega arith) (omega arith) (omega arith)
      (refl, λ e. omega (arith, e), refl, (refl, λ e. omega (arith, e), refl, refl)) two_spans-AllOk
      refl (omega arith) first_room_second

-- a second allocation, of two pages, in the span of three pages
abbrev with_five : World
with_five = record with_three {
  spans =
      update with_three.spans (chunk + 64)
        (record three { used_pages = 6; alloc_size_pages = update three.alloc_size_pages 4 2 });
}

span_free_local_twice_example :
    let w' = span_free_local 8192 chunk (chunk + 4096) with_five in
    span_free_local 8192 chunk (chunk + 4096) w' ≡ w'
unfolding release
span_free_local_twice_example =
    span_free_local_twice 8192 chunk (chunk + 4096) with_five (λ e. omega (arith, e))
