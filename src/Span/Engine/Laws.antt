-- ===== src/Span/Engine/Laws.antt =====
-- `lz_span_alloc` and `lz_span_free_local` as a whole.
use lzmalloc.Base.{
  ℕ, ◌+◌, ◌-◌, ◌/◌, ◌≤◌, ◌<◌, ◌≡◌, ◌⊎◌, ◌↔◌, sym, subst, arith, inl, inr, ◌==◌, Bool-cases,
  Option-cases, leb, ◌||◌,
}
use lzmalloc.Config.{span_total_pages, page_size}
use lzmalloc.Memory.{Span, World, set_span}
use lzmalloc.Span.Engine.{
  span_of, required_pages, walk, span_alloc, release, batch_freed, unlink_before, unlink_behind,
  destroy_span, span_free_local,
}
use lzmalloc.Span.Engine.Preserve.{
  Kept, settle, walk-Kept, alloc_in_new-Kept, set_span-Kept, links-SpanOk,
}
use lzmalloc.Span.Sums.{sum-all_zero, le-sum}
use lzmalloc.Span.Valid.{SpanOk, release-SpanOk}
use lzmalloc.Vmm.Frame.{vmm_free_chunk_spans}
use lzmalloc.Word.{u32, sub64}
use lzmalloc.Word.Align.{align_up-pow}

pub required_pages_form :
    (size : ℕ) → size ≤ 1048576 → required_pages size ≡ (size + (page_size - 1)) / page_size
unfolding required_pages
required_pages_form size h = ground (arith, align_up-pow 12 size, h)

-- For a size from 1 byte to 1 MB, `lz_span_alloc` keeps every well-formed span well formed, whether
-- it finds room in an active span, takes a new chunk or returns NULL, and however many active
-- spans it visits.
pub span_alloc-SpanOk :
    (fuel tlh size a : ℕ) (w : World)
    → 0 < size
    → size ≤ 1048576
    → SpanOk (w.spans a)
    → SpanOk ((span_alloc fuel tlh size w).1.spans a)
unfolding span_alloc settle
span_alloc-SpanOk fuel tlh size a w pos small ok =
    let n = required_pages size in
    let form = required_pages_form size small in
    let n_pos : 0 < n = omega (arith, form) in
    let n_small : n < span_total_pages = omega (arith, form) in
    let (hit, w') = walk fuel n (w.tlhs tlh).active_spans w in
    let walked : SpanOk ((settle n hit.current hit.page_idx w').spans a) =
      walk-Kept fuel n (w.tlhs tlh).active_spans w n_pos n_small a ok in
    elim (Bool-cases (leb span_total_pages n)) [
      | inl e ↦ rw e ok
      | inr e ↦ rw e (elim (Option-cases hit.page_idx) [
        | inl f ↦ rw f (
            alloc_in_new-Kept tlh n w' n_pos n_small a
              (subst (λ o. SpanOk ((settle n hit.current o w').spans a)) f walked))
        | inr (p, f) ↦ rw f (subst (λ o. SpanOk ((settle n hit.current o w').spans a)) f walked)
      ])
    ]

pub batch_freed_spans : (tlh n : ℕ) (w : World) → (batch_freed tlh n w).spans ≡ w.spans
unfolding batch_freed
batch_freed_spans tlh n w = ground arith

unlink_before-Kept : (tlh c : ℕ) (w : World) → Kept w (unlink_before tlh c w)
unfolding unlink_before
unlink_before-Kept tlh c w a ok =
    let s = w.spans c in
    let t = w.spans s.prev in
    elim (Bool-cases (s.prev == 0)) [
      | inl e ↦ rw e ok
      | inr e ↦
          rw e (
            set_span-Kept s.prev (record t { next = s.next }) w (links-SpanOk t s.next t.prev) a ok)
    ]

unlink_behind-Kept : (c : ℕ) (w : World) → Kept w (unlink_behind c w)
unfolding unlink_behind
unlink_behind-Kept c w a ok =
    let s = w.spans c in
    let t = w.spans s.next in
    elim (Bool-cases (s.next == 0)) [
      | inl e ↦ rw e ok
      | inr e ↦
          rw e (
            set_span-Kept s.next (record t { prev = s.prev }) w (links-SpanOk t t.next s.prev) a ok)
    ]

destroy_span-Kept : (tlh chunk : ℕ) (w : World) → Kept w (destroy_span tlh chunk w)
unfolding destroy_span
destroy_span-Kept tlh chunk w a ok =
    let c = span_of chunk in
    subst (λ m. SpanOk (m a)) (sym (vmm_free_chunk_spans chunk _))
      (unlink_behind-Kept c (unlink_before tlh c w) a (unlink_before-Kept tlh c w a ok))

-- `lz_span_free_local` keeps every well-formed span well formed, on any pointer.
pub span_free_local-SpanOk :
    (tlh chunk ptr a : ℕ) (w : World)
    → SpanOk (w.spans a)
    → SpanOk ((span_free_local tlh chunk ptr w).spans a)
unfolding span_free_local
span_free_local-SpanOk tlh chunk ptr a w ok =
    let start_page = u32 (sub64 ptr chunk / page_size) in
    let c = span_of chunk in
    let s = w.spans c in
    let n = s.alloc_size_pages start_page in
    let w1 = set_span c (release start_page s) w in
    let freed = batch_freed tlh n w1 in
    elim (Bool-cases (start_page == 0 || leb span_total_pages start_page)) [
      | inl e ↦ rw e ok
      | inr e ↦ rw e (elim (Bool-cases (n == 0)) [
        | inl f ↦ rw f ok
        | inr f ↦ rw f (
            let pos : 0 < n = ground arith in
            let ok1 : SpanOk (freed.spans a) =
              subst (λ m. SpanOk (m a)) (sym (batch_freed_spans tlh n w1))
                (set_span-Kept c (release start_page s) w (λ h. release-SpanOk s h start_page pos) a
                  ok) in
            elim (Bool-cases ((freed.spans c).used_pages == 1)) [
              | inl g ↦ rw g (destroy_span-Kept tlh chunk freed a ok1)
              | inr g ↦ rw g ok1
            ])
      ])
    ]

-- The pointers that the engine does not accept: no page behind page 0 of the chunk, or a page where
-- no allocation starts.
abbrev pub IsRefused : ℕ → ℕ → World → Type 0
IsRefused chunk ptr w =
    let start_page = u32 (sub64 ptr chunk / page_size) in
    (start_page ≡ 0)
    ⊎ (span_total_pages ≤ start_page)
    ⊎ ((w.spans (span_of chunk)).alloc_size_pages start_page ≡ 0)

-- Nothing is changed then.
pub span_free_local_refused :
    (tlh chunk ptr : ℕ) (w : World) → IsRefused chunk ptr w → span_free_local tlh chunk ptr w ≡ w
unfolding span_free_local
span_free_local_refused tlh chunk ptr w h = ground arith

-- On a well-formed span, the test of `lz_span_free_local` for an empty span holds exactly when no
-- allocation is left in the chunk.
pub used_pages-release_iff :
    (s : Span) (start : ℕ)
    → SpanOk s
    → 0 < s.alloc_size_pages start
    → ((release start s).used_pages ≡ 1)
      ↔ ((p : ℕ) → p < span_total_pages → (release start s).alloc_size_pages p ≡ 0)
used_pages-release_iff s start ok pos = (
  λ one p lt.
      omega (arith, ok'.counted, le-sum span_total_pages p (release start s).alloc_size_pages lt),
  λ empty.
      omega (
        arith,
        ok'.counted,
        sum-all_zero span_total_pages (release start s).alloc_size_pages empty,
      ),
)
  where
    ok' : SpanOk (release start s)
    ok' = release-SpanOk s ok start pos
