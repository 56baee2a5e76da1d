-- ===== src/Span/Engine/Active/New.antt =====
-- The span of a new chunk, in front of the list of active spans.
use lzmalloc.Base.{
  ℕ, ◌≤◌, ◌<◌, ◌≡◌, ◌≢◌, ◌⊎◌, refl, sym, ap, subst, ◌∙◌, arith, inl, inr, ◌==◌, Bool-cases,
  Option-cases, Option, none, some, List, [], ◌∷◌, mem, true, false,
}
use lzmalloc.Config.{span_total_pages}
use lzmalloc.Memory.{World}
use lzmalloc.Span.Links.{Linked, Linked-cons}
use lzmalloc.Span.Engine.{
  pristine, span_of, find_in, register_span, link_span, finalize, alloc_in_new,
}
use lzmalloc.Word.{sub32}
use lzmalloc.Span.Valid.{SpanOk}
use lzmalloc.Span.Engine.Preserve.{pristine-SpanOk, link_span_used, find_in-Kept, settle}
use lzmalloc.Span.Engine.Grant.{link_span_bitmap}
use lzmalloc.Vmm.{vmm_alloc_chunk}
use lzmalloc.Vmm.Frame.{vmm_alloc_chunk_spans, vmm_alloc_chunk_tlhs}
use lzmalloc.Span.Engine.Active.{
  IsActive, SameLinks, IsActive-SameLinks, find_in-SameLinks, finalize-SameLinks,
}

-- a new span goes in front
head_ne :
    (tlh c : ℕ) (xs : List ℕ) (w : World)
    → c ≢ 0
    → mem c xs ≡ false
    → IsActive tlh xs w
    → (w.tlhs tlh).active_spans ≢ c
head_ne tlh c [] w ne out l e = ne (sym e ∙ l)
head_ne tlh c (x ∷ xs) w ne out (e', _, _, _, _) e = ground (arith, out, e, e')

link_span-IsActive :
    (tlh c : ℕ) (xs : List ℕ) (w : World)
    → c ≢ 0
    → mem c xs ≡ false
    → IsActive tlh xs w
    → IsActive tlh (c ∷ xs) (link_span tlh c w)
unfolding link_span
link_span-IsActive tlh c xs w ne out l =
    let q = (w.tlhs tlh).active_spans in
    let off : q ≢ c = head_ne tlh c xs w ne out l in
    let w' = link_span tlh c w in
    let at_c : (w'.spans c).next ≡ q = ground (arith, off) in
    let back_c : (w'.spans c).prev ≡ 0 = ground (arith, off) in
    let same_next : (a : ℕ) → c ≢ a → (w'.spans a).next ≡ (w.spans a).next =
      λ a h. ground (arith, h) in
    let same_prev : (a : ℕ) → c ≢ a → q ≢ a → (w'.spans a).prev ≡ (w.spans a).prev =
      λ a h k. ground (arith, h, k) in
    let back : q ≢ 0 → (w'.spans q).prev ≡ c = λ h. ground (arith, h) in
    let head : (w'.tlhs tlh).active_spans ≡ c = ground arith in
    subst (λ t. Linked (λ a. (w'.spans a).next) (λ a. (w'.spans a).prev) 0 t (c ∷ xs)) (sym head)
      (Linked-cons (λ a. (w.spans a).next) (λ a. (w.spans a).prev) _ _ c q xs l ne out at_c back_c
        same_next same_prev back)

register_span-SameLinks : (tlh chunk : ℕ) (w : World) → SameLinks tlh w (register_span tlh chunk w)
unfolding register_span
register_span-SameLinks tlh chunk w = record { next = λ a. refl; prev = λ a. refl; head = refl }

vmm_alloc_chunk-SameLinks : (tlh : ℕ) (w : World) → SameLinks tlh w (vmm_alloc_chunk w).1
vmm_alloc_chunk-SameLinks tlh w = record {
  next = λ a. ap (λ m. (m a).next) (vmm_alloc_chunk_spans w);
  prev = λ a. ap (λ m. (m a).prev) (vmm_alloc_chunk_spans w);
  head = ap (λ m. (m tlh).active_spans) (vmm_alloc_chunk_tlhs w);
}

-- the span of a new chunk is well formed when it is linked, and when pages of it were searched
link_span_sizes :
    (tlh c : ℕ) (w : World) → ((link_span tlh c w).spans c).alloc_size_pages ≡ (λ i. 0)
unfolding link_span
link_span_sizes tlh c w = ground arith

link_span-SpanOk : (tlh c : ℕ) (w : World) → SpanOk ((link_span tlh c w).spans c)
link_span-SpanOk tlh c w =
    let s = (link_span tlh c w).spans c in
    subst (λ b. SpanOk (record s { free_bitmap = b })) (sym (link_span_bitmap tlh c w))
      (subst (λ u. SpanOk (record s { free_bitmap = pristine; used_pages = u }))
        (sym (link_span_used tlh c w))
        (subst
          (λ m. SpanOk (record s { free_bitmap = pristine; used_pages = 1; alloc_size_pages = m }))
          (sym (link_span_sizes tlh c w)) (pristine-SpanOk s.next s.prev)))

searched-SpanOk :
    (tlh n c : ℕ) (page : Option ℕ) (w : World)
    → 0 < n
    → n < span_total_pages
    → (find_in n c (link_span tlh c w)).0 ≡ page
    → SpanOk ((settle n c page (find_in n c (link_span tlh c w)).1).spans c)
searched-SpanOk tlh n c page w pos small e =
    let v = link_span tlh c w in
    let room : n ≤ sub32 span_total_pages (v.spans c).used_pages =
      rw (link_span_used tlh c w) (omega (arith, small)) in
    subst (λ o. SpanOk ((settle n c o (find_in n c v).1).spans c)) e
      (find_in-Kept n c v pos small room c (link_span-SpanOk tlh c w))

-- the chunk that the VMM gives next is no active span of the list
abbrev pub IsFresh : List ℕ → World → Type 0
IsFresh xs w =
    let chunk = (vmm_alloc_chunk w).0 in
    chunk ≢ 0 → (span_of chunk ≢ 0) × (mem (span_of chunk) xs ≡ false)

-- the list `xs`, or `xs` with a new and well-formed span in front
abbrev pub IsExtended : ℕ → List ℕ → World → World → Type 0
IsExtended tlh xs w w' =
    let c = span_of (vmm_alloc_chunk w).0 in
    IsActive tlh xs w' ⊎ (IsActive tlh (c ∷ xs) w' × SpanOk (w'.spans c))

module _ (tlh n : ℕ) (w : World) where
  -- the memory with the new chunk linked in front
  abbrev linked : World
  linked =
      let (chunk, w1) = vmm_alloc_chunk w in
      link_span tlh (span_of chunk) (register_span tlh chunk w1)

  alloc_in_new_null :
      ((vmm_alloc_chunk w).0 == 0) ≡ true → alloc_in_new tlh n w ≡ (0, (vmm_alloc_chunk w).1)
  unfolding alloc_in_new
  alloc_in_new_null e = rw e refl

  alloc_in_new_blocked :
      ((vmm_alloc_chunk w).0 == 0) ≡ false
      → (find_in n (span_of (vmm_alloc_chunk w).0) linked).0 ≡ none
      → alloc_in_new tlh n w ≡ (0, (find_in n (span_of (vmm_alloc_chunk w).0) linked).1)
  unfolding alloc_in_new
  alloc_in_new_blocked e f = rw (e, f) refl

  alloc_in_new_found :
      (p : ℕ)
      → ((vmm_alloc_chunk w).0 == 0) ≡ false
      → (find_in n (span_of (vmm_alloc_chunk w).0) linked).0 ≡ some p
      → alloc_in_new tlh n w
        ≡ finalize p n
            (span_of (vmm_alloc_chunk w).0)
            (find_in n (span_of (vmm_alloc_chunk w).0) linked).1
  unfolding alloc_in_new
  alloc_in_new_found p e f = rw (e, f) refl

pub alloc_in_new-IsExtended :
    (tlh n : ℕ) (xs : List ℕ) (w : World)
    → 0 < n
    → n < span_total_pages
    → IsFresh xs w
    → IsActive tlh xs w
    → IsExtended tlh xs w (alloc_in_new tlh n w).1
unfolding settle
alloc_in_new-IsExtended tlh n xs w pos small fresh l =
    let (chunk, w1) = vmm_alloc_chunk w in
    let c = span_of chunk in
    let w2 = register_span tlh chunk w1 in
    let w3 = linked tlh n w in
    let (page, w4) = find_in n c w3 in
    let goal : ℕ × World → Type 0 = λ r. IsExtended tlh xs w r.1 in
    let l1 : IsActive tlh xs w1 =
      IsActive-SameLinks tlh xs w w1 (vmm_alloc_chunk-SameLinks tlh w) l in
    elim (Bool-cases (chunk == 0)) [
      | inl e ↦ subst goal (sym (alloc_in_new_null tlh n w e)) (inl l1)
      | inr e ↦
          let (ne, out) = fresh (ground (arith, e)) in
          let l2 : IsActive tlh xs w2 =
            IsActive-SameLinks tlh xs w1 w2 (register_span-SameLinks tlh chunk w1) l1 in
          let l3 : IsActive tlh (c ∷ xs) w3 = link_span-IsActive tlh c xs w2 ne out l2 in
          let l4 : IsActive tlh (c ∷ xs) w4 =
            IsActive-SameLinks tlh (c ∷ xs) w3 w4 (find_in-SameLinks tlh n c w3) l3 in
          elim (Option-cases page) [
            | inl f ↦
                subst goal (sym (alloc_in_new_blocked tlh n w e f))
                  (inr (l4, searched-SpanOk tlh n c none w2 pos small f))
            | inr (p, f) ↦ subst goal (sym (alloc_in_new_found tlh n w p e f)) (
                inr (
                  IsActive-SameLinks tlh (c ∷ xs) w4 _ (finalize-SameLinks tlh p n c w4) l4,
                  searched-SpanOk tlh n c (some p) w2 pos small f,
                ))
          ]
    ]
