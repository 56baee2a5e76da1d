-- ===== src/Span/Engine/Active/Alloc.antt =====
-- `lz_span_alloc` keeps the list of active spans or puts a new span in front.
use lzmalloc.Base.{
  ℕ, ◌≤◌, ◌<◌, ◌⊎◌, sym, subst, arith, inl, inr, ◌==◌, ==_iff, Bool-cases, List, ◌∷◌,
}
use lzmalloc.Config.{span_total_pages}
use lzmalloc.Memory.{World}
use lzmalloc.Span.Engine.{Hit, span_of, find_in, walk, span_alloc, required_pages}
use lzmalloc.Span.Valid.{SpanOk}
use lzmalloc.Vmm.{vmm_alloc_chunk}
use lzmalloc.Span.Engine.Active.{
  IsActive, IsActiveOk, SameLinks-trans, IsActive-SameLinks, find_in-SameLinks, finalize-SameLinks,
}
use lzmalloc.Span.Engine.Laws.{span_alloc-SpanOk, required_pages_form}
use lzmalloc.Span.Engine.Walk.{AllOk, WalkEnds, walk-WalkEnds, after_walk, span_alloc-after_walk}
use lzmalloc.Span.Engine.Active.New.{IsFresh, IsExtended, alloc_in_new-IsExtended}

after_walk-IsExtended :
    (tlh n : ℕ) (xs : List ℕ) (w : World) (r : Hit × World)
    → 0 < n
    → n < span_total_pages
    → IsFresh xs w
    → IsActive tlh xs w
    → WalkEnds n w r
    → IsExtended tlh xs w (after_walk tlh n r).1
unfolding after_walk
after_walk-IsExtended tlh n xs w r pos small fresh l (inl (c, e)) =
    subst (λ t. IsExtended tlh xs w (after_walk tlh n t).1) (sym e)
      (alloc_in_new-IsExtended tlh n xs w pos small fresh l)
after_walk-IsExtended tlh n xs w r pos small fresh l (inr (c, p, e)) =
    let w' = (find_in n c w).1 in
    subst (λ t. IsExtended tlh xs w (after_walk tlh n t).1) (sym e)
      (inl (
        IsActive-SameLinks tlh xs w _
          (SameLinks-trans tlh w w' _ (find_in-SameLinks tlh n c w)
            (finalize-SameLinks tlh p n c w'))
          l))

span_alloc-IsExtended :
    (fuel tlh size : ℕ) (xs : List ℕ) (w : World)
    → 0 < size
    → size ≤ 1048576
    → IsFresh xs w
    → IsActive tlh xs w
    → IsExtended tlh xs w (span_alloc fuel tlh size w).1
span_alloc-IsExtended fuel tlh size xs w pos h fresh l =
    let n = required_pages size in
    let form = required_pages_form size h in
    let n_pos : 0 < n = omega (arith, form) in
    let n_small : n < span_total_pages = omega (arith, form) in
    let head = (w.tlhs tlh).active_spans in
    subst (λ r. IsExtended tlh xs w r.1) (sym (span_alloc-after_walk fuel tlh size w n_small))
      (after_walk-IsExtended tlh n xs w (walk fuel n head w) n_pos n_small fresh l
        (walk-WalkEnds fuel n head w n_pos n_small))

-- For a size from 1 byte to 1 MB, where the active spans of the thread are a doubly linked list of
-- distinct and well-formed spans, they still are after `lz_span_alloc`: the list is the same, or
-- it has the span of the new chunk in front, provided that a chunk which the VMM gives is the chunk
-- of no span in the list.
pub span_alloc-IsActiveOk :
    (fuel tlh size : ℕ) (xs : List ℕ) (w : World)
    → 0 < size
    → size ≤ 1048576
    → IsFresh xs w
    → IsActiveOk tlh xs w
    → let w' = (span_alloc fuel tlh size w).1 in
      IsActiveOk tlh xs w' ⊎ IsActiveOk tlh (span_of (vmm_alloc_chunk w).0 ∷ xs) w'
span_alloc-IsActiveOk fuel tlh size xs w pos h fresh (l, ok) =
    let c = span_of (vmm_alloc_chunk w).0 in
    let w' = (span_alloc fuel tlh size w).1 in
    let ok' : AllOk w'.spans xs = λ a m. span_alloc-SpanOk fuel tlh size a w pos h (ok a m) in
    elim (span_alloc-IsExtended fuel tlh size xs w pos h fresh l) [
      | inl l' ↦ inl (l', ok')
      | inr (l', new) ↦ inr (
        l',
        λ a m. elim (Bool-cases (a == c)) [
          | inl e ↦ subst (λ x. SpanOk (w'.spans x)) (sym ((==_iff a c).0 e)) new
          | inr e ↦ ok' a (ground (arith, m, e))
        ],
      )
    ]
