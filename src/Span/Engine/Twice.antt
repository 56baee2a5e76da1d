-- ===== src/Span/Engine/Twice.antt =====
-- `lz_span_free_local` called twice on one pointer.
use lzmalloc.Base.{
  false, ◌≢◌, refl, ap, ◌∙◌, update_self, ℕ, ◌/◌, ◌≡◌, sym, subst, arith, inl, inr, ◌==◌,
  Bool-cases, leb, ◌||◌,
}
use lzmalloc.Config.{span_total_pages, page_size}
use lzmalloc.Memory.{Span, World, set_span}
use lzmalloc.Span.Engine.{span_of, release, batch_freed, span_free_local}
use lzmalloc.Word.{u32, sub64}
use lzmalloc.Span.Engine.Laws.{batch_freed_spans, span_free_local_refused}

released_size : (start : ℕ) (s : Span) → (release start s).alloc_size_pages start ≡ 0
unfolding release
released_size start s = update_self s.alloc_size_pages start 0

-- the page that a pointer is taken for, as the code computes it
abbrev pub start_page : ℕ → ℕ → ℕ
start_page chunk ptr = u32 (sub64 ptr chunk / page_size)

-- an accepted free where the span has another allocation left
freed_once :
    (tlh chunk ptr : ℕ) (w : World)
    → let start = start_page chunk ptr in
      let s = w.spans (span_of chunk) in
      (start == 0 || leb span_total_pages start) ≡ false
      → (s.alloc_size_pages start == 0) ≡ false
      → (release start s).used_pages ≢ 1
      → span_free_local tlh chunk ptr w
        ≡ batch_freed tlh (s.alloc_size_pages start) (set_span (span_of chunk) (release start s) w)
unfolding span_free_local
freed_once tlh chunk ptr w e f more =
    let c = span_of chunk in
    let start = start_page chunk ptr in
    let s = w.spans c in
    let n = s.alloc_size_pages start in
    let w1 = set_span c (release start s) w in
    let stored : (batch_freed tlh n w1).spans c ≡ release start s =
      ap (λ m. m c) (batch_freed_spans tlh n w1) ∙ update_self w.spans c (release start s) in
    let left : ((batch_freed tlh n w1).spans c).used_pages ≢ 1 =
      subst (λ (t : Span). t.used_pages ≢ 1) (sym stored) more in
    let many : (((batch_freed tlh n w1).spans c).used_pages == 1) ≡ false = ground (arith, left) in
    rw (e, f, many) refl

-- A double free is without effect: where a free leaves another allocation in the span, so that the
-- span is not destroyed, the same free once more changes nothing at all, whatever the pointer is.
pub span_free_local_twice :
    (tlh chunk ptr : ℕ) (w : World)
    → (release (start_page chunk ptr) (w.spans (span_of chunk))).used_pages ≢ 1
    → let w' = span_free_local tlh chunk ptr w in span_free_local tlh chunk ptr w' ≡ w'
span_free_local_twice tlh chunk ptr w more =
    let c = span_of chunk in
    let start = start_page chunk ptr in
    let s = w.spans c in
    let n = s.alloc_size_pages start in
    let again : World → Type 0 = λ v. span_free_local tlh chunk ptr v ≡ v in
    elim (Bool-cases (start == 0 || leb span_total_pages start)) [
      | inl e ↦
          let same = span_free_local_refused tlh chunk ptr w (ground arith) in
          subst again (sym same) same
      | inr e ↦ elim (Bool-cases (n == 0)) [
        | inl f ↦
            let same = span_free_local_refused tlh chunk ptr w (ground arith) in
            subst again (sym same) same
        | inr f ↦
            let w1 = set_span c (release start s) w in
            let freed = batch_freed tlh n w1 in
            let stored : freed.spans c ≡ release start s =
              ap (λ m. m c) (batch_freed_spans tlh n w1)
              ∙ update_self w.spans c (release start s) in
            subst again (sym (freed_once tlh chunk ptr w e f more)) (
              span_free_local_refused tlh chunk ptr freed (
                inr (
                  inr
                    (ap (λ (t : Span). t.alloc_size_pages start) stored ∙ released_size start s))))
      ]
    ]
