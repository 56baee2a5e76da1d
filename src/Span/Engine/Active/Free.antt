-- ===== src/Span/Engine/Active/Free.antt =====
-- `lz_span_free_local` takes a destroyed span out of the list of active spans.
use lzmalloc.Base.{
  ℕ, ◌≡◌, ◌≢◌, ◌⊎◌, refl, ap, arith, inl, inr, ◌==◌, Bool-cases, leb, List, ◌∷◌, ◌++◌, mem-append,
  ◌||◌, ◌/◌,
}
use lzmalloc.Config.{span_total_pages, page_size}
use lzmalloc.Memory.{World, set_span}
use lzmalloc.Rtree.{rtree_clear}
use lzmalloc.Span.Links.{Linked-no_loop, Linked-removed}
use lzmalloc.Span.Engine.{
  span_of, unlink_before, unlink_behind, batch_freed, destroy_span, span_free_local, release,
}
use lzmalloc.Word.{u32, sub64}
use lzmalloc.Vmm.{vmm_free_chunk}
use lzmalloc.Vmm.Frame.{vmm_free_chunk_spans, vmm_free_chunk_tlhs}
use lzmalloc.Span.Engine.Walk.{AllOk}
use lzmalloc.Span.Engine.Laws.{span_free_local-SpanOk}
use lzmalloc.Span.Engine.Active.{
  IsActiveOk, IsActive, SameLinks, SameLinks-trans, IsActive-SameLinks, batch_freed-SameLinks,
}

-- a span leaves
unlink-IsActive :
    (tlh c : ℕ) (ys zs : List ℕ) (w : World)
    → IsActive tlh (ys ++ c ∷ zs) w
    → IsActive tlh (ys ++ zs) (unlink_behind c (unlink_before tlh c w))
unfolding unlink_before unlink_behind
unlink-IsActive tlh c ys zs w l =
    let f : ℕ → ℕ = λ a. (w.spans a).next in
    let g : ℕ → ℕ = λ a. (w.spans a).prev in
    let q = (w.tlhs tlh).active_spans in
    let w' = unlink_behind c (unlink_before tlh c w) in
    let apart : (f c ≢ c) × (g c ≢ c) = Linked-no_loop f g c q ys zs l in
    let forth : g c ≢ 0 → (w'.spans (g c)).next ≡ f c = λ h. ground (arith, h, apart) in
    let back : f c ≢ 0 → (w'.spans (f c)).prev ≡ g c = λ h. ground (arith, h, apart) in
    let same_f : (a : ℕ) → g c ≢ a → (w'.spans a).next ≡ f a = λ a h. ground (arith, h, apart) in
    let same_g : (a : ℕ) → f c ≢ a → (w'.spans a).prev ≡ g a = λ a h. ground (arith, h, apart) in
    let first : g c ≡ 0 → (w'.tlhs tlh).active_spans ≡ f c = λ h. ground (arith, h, apart) in
    let other : g c ≢ 0 → (w'.tlhs tlh).active_spans ≡ q = λ h. ground (arith, h, apart) in
    Linked-removed f g (λ a. (w'.spans a).next) (λ a. (w'.spans a).prev) c forth back same_f same_g
      q _ ys zs l first other

vmm_free_chunk-SameLinks : (tlh chunk : ℕ) (w : World) → SameLinks tlh w (vmm_free_chunk chunk w)
vmm_free_chunk-SameLinks tlh chunk w = record {
  next = λ a. ap (λ m. (m a).next) (vmm_free_chunk_spans chunk w);
  prev = λ a. ap (λ m. (m a).prev) (vmm_free_chunk_spans chunk w);
  head = ap (λ m. (m tlh).active_spans) (vmm_free_chunk_tlhs chunk w);
}

destroy_span-IsActive :
    (tlh chunk : ℕ) (ys zs : List ℕ) (w : World)
    → IsActive tlh (ys ++ span_of chunk ∷ zs) w
    → IsActive tlh (ys ++ zs) (destroy_span tlh chunk w)
unfolding destroy_span
destroy_span-IsActive tlh chunk ys zs w l =
    let w1 = unlink_behind (span_of chunk) (unlink_before tlh (span_of chunk) w) in
    let (root, os) = rtree_clear chunk (w1.root, w1.os) in
    let w2 : World = record w1 { root = root; os = os } in
    IsActive-SameLinks tlh (ys ++ zs) w2 (vmm_free_chunk chunk w2)
      (vmm_free_chunk-SameLinks tlh chunk w2) (unlink-IsActive tlh (span_of chunk) ys zs w l)

release-SameLinks :
    (tlh c start : ℕ) (w : World) → SameLinks tlh w (set_span c (release start (w.spans c)) w)
unfolding release
release-SameLinks tlh c start w = record {
  next = λ a. ground arith;
  prev = λ a. ground arith;
  head = refl;
}

span_free_local-IsActive :
    (tlh chunk ptr : ℕ) (ys zs : List ℕ) (w : World)
    → IsActive tlh (ys ++ span_of chunk ∷ zs) w
    → let w' = span_free_local tlh chunk ptr w in
      IsActive tlh (ys ++ span_of chunk ∷ zs) w' ⊎ IsActive tlh (ys ++ zs) w'
unfolding span_free_local
span_free_local-IsActive tlh chunk ptr ys zs w l =
    let start_page = u32 (sub64 ptr chunk / page_size) in
    let c = span_of chunk in
    let n = (w.spans c).alloc_size_pages start_page in
    let w1 = set_span c (release start_page (w.spans c)) w in
    let freed = batch_freed tlh n w1 in
    let kept : IsActive tlh (ys ++ c ∷ zs) freed =
      IsActive-SameLinks tlh (ys ++ c ∷ zs) w freed
        (SameLinks-trans tlh w w1 freed (release-SameLinks tlh c start_page w)
          (batch_freed-SameLinks tlh n w1))
        l in
    elim (Bool-cases (start_page == 0 || leb span_total_pages start_page)) [
      | inl e ↦ rw e (inl l)
      | inr e ↦ rw e (elim (Bool-cases (n == 0)) [
        | inl f ↦ rw f (inl l)
        | inr f ↦ rw f (elim (Bool-cases ((freed.spans c).used_pages == 1)) [
          | inl g ↦ rw g (inr (destroy_span-IsActive tlh chunk ys zs freed kept))
          | inr g ↦ rw g (inl kept)
        ])
      ])
    ]

-- Where the active spans of the thread are a doubly linked list of distinct and well-formed spans,
-- and the span of the chunk is one of them, they still are after `lz_span_free_local`, on any pointer:
-- the list is the same, or it is the list without that span, whichever place it had.
pub span_free_local-IsActiveOk :
    (tlh chunk ptr : ℕ) (ys zs : List ℕ) (w : World)
    → IsActiveOk tlh (ys ++ span_of chunk ∷ zs) w
    → let w' = span_free_local tlh chunk ptr w in
      IsActiveOk tlh (ys ++ span_of chunk ∷ zs) w' ⊎ IsActiveOk tlh (ys ++ zs) w'
span_free_local-IsActiveOk tlh chunk ptr ys zs w (l, ok) =
    let c = span_of chunk in
    let w' = span_free_local tlh chunk ptr w in
    let kept : AllOk w'.spans (ys ++ c ∷ zs) =
      λ a m. span_free_local-SpanOk tlh chunk ptr a w (ok a m) in
    elim (span_free_local-IsActive tlh chunk ptr ys zs w l) [
      | inl l' ↦ inl (l', kept)
      | inr l' ↦
          inr (l', λ a m. kept a (ground (arith, m, mem-append a ys zs, mem-append a ys (c ∷ zs))))
    ]
