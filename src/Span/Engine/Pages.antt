-- ===== src/Span/Engine/Pages.antt =====
-- The pages of a span across `lz_span_free_local`.
use lzmalloc.Base.{
  ℕ, ◌/◌, ◌<◌, ◌≡◌, refl, sym, ap, subst, ◌∙◌, arith, inl, inr, ◌==◌, ◌||◌, Bool-cases, leb,
  update_self, false,
}
use lzmalloc.Config.{span_total_pages, page_size}
use lzmalloc.Memory.{Span, World, set_span}
use lzmalloc.Span.Engine.{
  span_of, release, batch_freed, unlink_before, unlink_behind, destroy_span, span_free_local,
}
use lzmalloc.Span.Engine.Laws.{batch_freed_spans}
use lzmalloc.Span.Valid.{SamePages}
use lzmalloc.Vmm.Frame.{vmm_free_chunk_spans}
use lzmalloc.Word.{u32, sub64}

SamePages-refl : (s : Span) → SamePages s s
SamePages-refl s = record { bitmap = λ p. refl; sizes = λ p. refl; used = refl }

pub SamePages-trans : (r s t : Span) → SamePages r s → SamePages s t → SamePages r t
SamePages-trans r s t h k = record {
  bitmap = λ p. h.bitmap p ∙ k.bitmap p;
  sizes = λ p. h.sizes p ∙ k.sizes p;
  used = h.used ∙ k.used;
}

unlink_before-SamePages :
    (tlh c a : ℕ) (w : World) → SamePages ((unlink_before tlh c w).spans a) (w.spans a)
unfolding unlink_before
unlink_before-SamePages tlh c a w = record {
  bitmap = λ p. ground arith;
  sizes = λ p. ground arith;
  used = ground arith;
}

unlink_behind-SamePages :
    (c a : ℕ) (w : World) → SamePages ((unlink_behind c w).spans a) (w.spans a)
unfolding unlink_behind
unlink_behind-SamePages c a w = record {
  bitmap = λ p. ground arith;
  sizes = λ p. ground arith;
  used = ground arith;
}

-- Destroying a span touches no page.
destroy_span-SamePages :
    (tlh chunk a : ℕ) (w : World) → SamePages ((destroy_span tlh chunk w).spans a) (w.spans a)
unfolding destroy_span
destroy_span-SamePages tlh chunk a w =
    let c = span_of chunk in
    let w1 = unlink_before tlh c w in
    subst (λ m. SamePages (m a) (w.spans a)) (sym (vmm_free_chunk_spans chunk _))
      (SamePages-trans _ (w1.spans a) _ (unlink_behind-SamePages c a w1)
        (unlink_before-SamePages tlh c a w))

-- `lz_span_free_local` on an allocation releases its pages, whether the span is destroyed or not.
pub span_free_local-SamePages :
    (tlh chunk ptr start : ℕ) (w : World)
    → u32 (sub64 ptr chunk / page_size) ≡ start
    → 0 < start
    → start < span_total_pages
    → 0 < (w.spans (span_of chunk)).alloc_size_pages start
    → SamePages
        ((span_free_local tlh chunk ptr w).spans (span_of chunk))
        (release start (w.spans (span_of chunk)))
unfolding span_free_local
span_free_local-SamePages tlh chunk ptr start w at_start pos lt taken =
    let c = span_of chunk in
    let n = (w.spans c).alloc_size_pages start in
    let w1 = set_span c (release start (w.spans c)) w in
    let freed = batch_freed tlh n w1 in
    let guard : (start == 0 || leb span_total_pages start) ≡ false = ground arith in
    let sized : (n == 0) ≡ false = ground arith in
    let s : SamePages (freed.spans c) (release start (w.spans c)) =
      subst (λ t. SamePages t (release start (w.spans c)))
        (sym (ap (λ m. m c) (batch_freed_spans tlh n w1) ∙ update_self w.spans c _))
        (SamePages-refl (release start (w.spans c))) in
    rw (at_start, guard, sized)
      (elim (Bool-cases ((freed.spans c).used_pages == 1)) [
        | inl e ↦
            rw e (SamePages-trans _ (freed.spans c) _ (destroy_span-SamePages tlh chunk c freed) s)
        | inr e ↦ rw e s
      ])
