-- ===== src/Span/Engine/Life.antt =====
-- The life of an allocation in an active span, from `lz_span_alloc` to `lz_span_free_local`.
use lzmalloc.Base.{
  ℕ, ◌+◌, ◌*◌, ◌-◌, ◌/◌, ◌%◌, ◌^◌, ◌≤◌, ◌<◌, ◌≡◌, refl, sym, ap, subst, ◌∙◌, arith, inl, inr,
  Option-cases, Option, none, some, List, [], ◌∷◌, length, Chain, mem, update_self, true,
}
use lzmalloc.Config.{span_total_pages, page_size, huge_page_size}
use lzmalloc.Memory.{Span, World}
use lzmalloc.Span.{find_contiguous_pages}
use lzmalloc.Span.Contiguous.{Finds, find_contiguous_pages-Finds}
use lzmalloc.Span.Count.{FirstFit-room}
use lzmalloc.Span.Engine.{span_of, find_in, finalize, span_alloc, release, span_free_local}
use lzmalloc.Span.Engine.Pages.{SamePages-trans, span_free_local-SamePages}
use lzmalloc.Span.Engine.Walk.{AllOk, first_room, serve, span_alloc-serve}
use lzmalloc.Span.Valid.{SpanOk, SamePages, claim, release-claim}
use lzmalloc.Word.{u32, add64, sub64, align_down}
use lzmalloc.Word.Align.{align_down-pow}

-- the content of an option, or `d`
abbrev get : ℕ × ℕ → Option (ℕ × ℕ) → ℕ × ℕ
get d none = d
get d (some x) = x

mem_head : (x : ℕ) (xs : List ℕ) → mem x (x ∷ xs) ≡ true
mem_head x xs = ground arith

-- A chosen span is one of the list, and its bitmap has the page.
first_room-chosen :
    (n c p : ℕ) (spans : ℕ → Span) (xs : List ℕ)
    → first_room n spans xs ≡ some (c, p)
    → (mem c xs ≡ true) × ((find_contiguous_pages n (spans c).free_bitmap).0 ≡ some p)
unfolding first_room
first_room-chosen n c p spans [] e = absurd (ground (arith, e))
first_room-chosen n c p spans (x ∷ xs) e =
    elim (Option-cases (find_contiguous_pages n (spans x).free_bitmap).0) [
      | inl missed ↦
          let rest = first_room-chosen n c p spans xs (rw (missed, first_room) at e) in
          (ground (arith, rest), rest.1)
      | inr (q, found) ↦
          let e' : some (x, q) ≡ some (c, p) = rw (found, first_room) at e in
          let here : x ≡ c = ap (λ o. (get (x, q) o).0) e' in
          let page : q ≡ p = ap (λ o. (get (x, q) o).1) e' in
          (
            subst (λ y. mem y (x ∷ xs) ≡ true) here (mem_head x xs),
            subst (λ y. (find_contiguous_pages n (spans y).free_bitmap).0 ≡ some p) here
                (found ∙ ap some page),
          )
    ]

-- the span in which the pages were found and finalized
finalize-claim :
    (n c p : ℕ) (w : World)
    → ((finalize p n c (find_in n c w).1).1.spans c)
      ≡ claim p n (find_contiguous_pages n (w.spans c).free_bitmap).1 (w.spans c)
unfolding finalize find_in
finalize-claim n c p w =
    update_self (find_in n c w).1.spans c _
    ∙ ap (λ t. claim p n t.free_bitmap t) (update_self w.spans c _)

finalize_address :
    (n c p : ℕ) (w : World)
    → (finalize p n c w).0 ≡ add64 (align_down c huge_page_size) (p * page_size)
unfolding finalize
finalize_address n c p w = refl

-- the address that is handed out, and the page that the free computes from it
page_address :
    (chunk p : ℕ)
    → chunk % huge_page_size ≡ 0
    → chunk + huge_page_size ≤ 2 ^ 64
    → p < span_total_pages
    → add64 (align_down (span_of chunk) huge_page_size) (p * page_size) ≡ chunk + p * page_size
page_address chunk p aligned fits lt =
    let small : span_of chunk < 2 ^ 64 = omega arith in
    let base : align_down (span_of chunk) huge_page_size ≡ chunk =
      align_down-pow 21 (span_of chunk) (omega arith) small ∙ omega (arith, aligned, fits) in
    ap (λ b. add64 b (p * page_size)) base ∙ omega (arith, fits, lt)

page_of_address :
    (chunk p : ℕ)
    → chunk + huge_page_size ≤ 2 ^ 64
    → p < span_total_pages
    → u32 (sub64 (chunk + p * page_size) chunk / page_size) ≡ p
page_of_address chunk p fits lt = omega arith

-- the span after the allocation, and after the free
chosen-Life :
    (n c p : ℕ) (w : World)
    → 0 < n
    → n < span_total_pages
    → SpanOk (w.spans c)
    → (find_contiguous_pages n (w.spans c).free_bitmap).0 ≡ some p
    → let bm = (find_contiguous_pages n (w.spans c).free_bitmap).1 in
      (0 < p)
      × (p + n ≤ span_total_pages)
      × SamePages (release p (claim p n bm (w.spans c))) (w.spans c)
chosen-Life n c p w pos small ok e =
    from _ _ (find_contiguous_pages-Finds n (w.spans c).free_bitmap pos small) e
  where
    from :
        (page : Option ℕ) (bm : ℕ → ℕ)
        → Finds n (w.spans c).free_bitmap page bm
        → page ≡ some p
        → (0 < p)
          × (p + n ≤ span_total_pages)
          × SamePages (release p (claim p n bm (w.spans c))) (w.spans c)
    from none bm f e = absurd (ground (arith, e))
    from (some q) bm (fit, marked) e =
        let same : q ≡ p = ground (arith, e) in
        let behind : 0 < q = ground (arith, fit.free 0, ok.page_zero) in
        (
          ground (arith, behind, same),
          ground (arith, fit.inside, same),
          subst (λ t. SamePages (release t (claim t n bm (w.spans c))) (w.spans c)) same
              (release-claim (w.spans c) ok q n bm pos (FirstFit-room (w.spans c) ok n q fit) fit
                marked),
        )

finalized-Life :
    (tlh n chunk p : ℕ) (w : World)
    → 0 < n
    → n < span_total_pages
    → SpanOk (w.spans (span_of chunk))
    → chunk % huge_page_size ≡ 0
    → chunk + huge_page_size ≤ 2 ^ 64
    → (find_contiguous_pages n (w.spans (span_of chunk)).free_bitmap).0 ≡ some p
    → let (addr, w') = finalize p n (span_of chunk) (find_in n (span_of chunk) w).1 in
      (addr ≡ chunk + p * page_size)
      × SamePages
          ((span_free_local tlh chunk addr w').spans (span_of chunk))
          (w.spans (span_of chunk))
finalized-Life tlh n chunk p w pos small ok aligned fits found =
    let c = span_of chunk in
    let (addr, w') = finalize p n c (find_in n c w).1 in
    let (behind, inside, back) = chosen-Life n c p w pos small ok found in
    let lt : p < span_total_pages = omega (arith, pos, inside) in
    let at_c = finalize-claim n c p w in
    let address : addr ≡ chunk + p * page_size =
      finalize_address n c p (find_in n c w).1 ∙ page_address chunk p aligned fits lt in
    let start : u32 (sub64 addr chunk / page_size) ≡ p =
      ap (λ a. u32 (sub64 a chunk / page_size)) address ∙ page_of_address chunk p fits lt in
    let taken : 0 < (w'.spans c).alloc_size_pages p =
      subst (λ s. 0 < s.alloc_size_pages p) (sym at_c) (ground (arith, pos, small)) in
    (
      address,
      SamePages-trans _ (release p (w'.spans c)) _
          (span_free_local-SamePages tlh chunk addr p w' start behind lt taken)
          (subst (λ s. SamePages (release p s) (w.spans c)) (sym at_c) back),
    )

-- The life of an allocation of 1 byte to 1 MB in the span of the chunk at `chunk`, where that span is
-- the first with room among the active and well-formed spans `xs` of the thread, `p` is the page
-- found there, and the chunk lies at a multiple of 2 MB below 2^64: `lz_span_alloc` returns the
-- address of page `p`, and `lz_span_free_local` on that address gives back just the pages that were
-- taken, so that the span has the pages in use, the allocations and the count that it had.
pub span_free_local-span_alloc :
    (fuel tlh size : ℕ) (xs : List ℕ) (chunk p : ℕ) (w : World)
    → 0 < size
    → size ≤ 1048576
    → length xs < fuel
    → Chain (λ a. (w.spans a).next) (w.tlhs tlh).active_spans xs
    → AllOk w.spans xs
    → chunk % huge_page_size ≡ 0
    → chunk + huge_page_size ≤ 2 ^ 64
    → first_room ((size + (page_size - 1)) / page_size) w.spans xs ≡ some (span_of chunk, p)
    → let (addr, w') = span_alloc fuel tlh size w in
      (addr ≡ chunk + p * page_size)
      × SamePages
          ((span_free_local tlh chunk addr w').spans (span_of chunk))
          (w.spans (span_of chunk))
span_free_local-span_alloc fuel tlh size xs chunk p w pos h lt chain ok aligned fits chosen =
    let n : ℕ = (size + (page_size - 1)) / page_size in
    let c = span_of chunk in
    let (listed, found) = first_room-chosen n c p w.spans xs chosen in
    let served : span_alloc fuel tlh size w ≡ finalize p n c (find_in n c w).1 =
      span_alloc-serve fuel tlh size xs w pos h lt chain ok ∙ ap (serve tlh n w) chosen in
    subst
      (λ r.
        (r.0 ≡ chunk + p * page_size)
        × SamePages ((span_free_local tlh chunk r.0 r.1).spans c) (w.spans c))
      (sym served)
      (finalized-Life tlh n chunk p w (omega arith) (omega arith) (ok c listed) aligned fits found)
