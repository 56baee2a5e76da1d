-- ===== src/Span/Engine/Grant.antt =====
-- What `lz_span_alloc` hands out.
use lzmalloc.Base.{
  ℕ, zero, suc, ◌+◌, ◌*◌, ◌-◌, ◌/◌, ◌≤◌, ◌<◌, ◌≡◌, ◌⊎◌, refl, fun_ext, subst, ap, ◌∙◌, arith, inl,
  inr, ◌==◌, ==_iff, Bool-cases, Option-cases, update, leb, Option, none, some,
}
use lzmalloc.Config.{span_total_pages, page_size, huge_page_size}
use lzmalloc.Memory.{Span, World}
use lzmalloc.Span.Contiguous.{Finds, find_contiguous_pages-Finds}
use lzmalloc.Span.Engine.{
  span_of, required_pages, find_in, walk, pristine, register_span, link_span, finalize,
  alloc_in_new, span_alloc,
}
use lzmalloc.Span.Engine.Laws.{required_pages_form}
use lzmalloc.Span.Steps.{FirstFit}
use lzmalloc.Vmm.{vmm_alloc_chunk}
use lzmalloc.Word.{sub32, add64, align_down}

-- The search goes on: nothing fits in the spans that it has passed, and no bitmap has changed.
abbrev pub Same : World → World → Type 0
Same w w' = (a : ℕ) → w'.spans a ≡ w.spans a

pub find_in-none :
    (n c : ℕ) (w : World)
    → 0 < n
    → n < span_total_pages
    → (find_in n c w).0 ≡ none
    → Same w (find_in n c w).1
unfolding find_in
find_in-none n c w pos small e a =
    from _ _ (find_contiguous_pages-Finds n (w.spans c).free_bitmap pos small) e
  where
    from :
        (page : Option ℕ) (bm : ℕ → ℕ)
        → Finds n (w.spans c).free_bitmap page bm
        → page ≡ none
        → update w.spans c (record (w.spans c) { free_bitmap = bm }) a ≡ w.spans a
    from none bm (blocked, same) e = elim (Bool-cases (c == a)) [
      | inl here ↦
          rw here (
            ap (λ b. record (w.spans c) { free_bitmap = b }) same
            ∙ ap w.spans ((==_iff c a).0 here))
      | inr away ↦ rw away refl
    ]
    from (some page) bm f e = absurd (ground (arith, e))

-- the page found in the span at `c` is the first of a run of free pages there
abbrev Fits : ℕ → (ℕ → Span) → ℕ → Option ℕ → Type 0
Fits n spans c none = n ≡ n
Fits n spans c (some p) = FirstFit (spans c).free_bitmap n p

find_in-Fits :
    (n c : ℕ) (w : World) → 0 < n → n < span_total_pages → Fits n w.spans c (find_in n c w).0
unfolding find_in
find_in-Fits n c w pos small =
    from _ _ (find_contiguous_pages-Finds n (w.spans c).free_bitmap pos small)
  where
    from :
        (page : Option ℕ) (bm : ℕ → ℕ)
        → Finds n (w.spans c).free_bitmap page bm
        → Fits n w.spans c page
    from none bm f = refl
    from (some page) bm f = f.0

walk-Fits :
    (fuel n c : ℕ) (w : World)
    → 0 < n
    → n < span_total_pages
    → Fits n w.spans (walk fuel n c w).0.current (walk fuel n c w).0.page_idx
unfolding walk
walk-Fits zero n c w pos small = refl
walk-Fits (suc fuel) n c w pos small = elim (Bool-cases (c == 0)) [
  | inl e ↦ rw e refl
  | inr e ↦ rw e (elim (Bool-cases (leb n (sub32 span_total_pages (w.spans c).used_pages))) [
    | inl fits ↦ rw fits (elim (Option-cases (find_in n c w).0) [
      | inl missed ↦
          let (hit, w') = walk fuel n (w.spans c).next (find_in n c w).1 in
          rw missed (
            subst (λ m. Fits n m hit.current hit.page_idx)
              (fun_ext (find_in-none n c w pos small missed))
              (walk-Fits fuel n (w.spans c).next (find_in n c w).1 pos small))
      | inr (p, found) ↦
          rw found (subst (λ o. Fits n w.spans c o) found (find_in-Fits n c w pos small))
    ])
    | inr full ↦ rw full (walk-Fits fuel n (w.spans c).next w pos small)
  ])
]

pub link_span_bitmap :
    (tlh c : ℕ) (w : World) → ((link_span tlh c w).spans c).free_bitmap ≡ pristine
unfolding link_span
link_span_bitmap tlh c w = ground arith

link_span_active : (tlh c : ℕ) (w : World) → ((link_span tlh c w).tlhs tlh).active_spans ≡ c
unfolding link_span
link_span_active tlh c w = ground arith

-- The `n` pages from page `p` of the span at `c` are handed out, between `w` and `w'`: the address
-- is that of the page, the span has noted their number, and they were free, the first such run of
-- the span, or of a new span, which is the thread's first active span then.
pub record IsGranted (tlh n c p addr : ℕ) (w w' : World) : Type 0 where
  pub address : addr ≡ add64 (align_down c huge_page_size) (p * page_size)
  pub noted : (w'.spans c).alloc_size_pages p ≡ n
  pub free :
      FirstFit (w.spans c).free_bitmap n p
      ⊎ (((w'.tlhs tlh).active_spans ≡ c) × FirstFit pristine n p)

finalize_noted :
    (p n c : ℕ) (w : World)
    → n < span_total_pages
    → ((finalize p n c w).1.spans c).alloc_size_pages p ≡ n
unfolding finalize
finalize_noted p n c w h = ground arith

alloc_in_new-IsGranted :
    (tlh n : ℕ) (v w : World)
    → 0 < n
    → n < span_total_pages
    → ((alloc_in_new tlh n w).0 ≡ 0)
      ⊎ ((c : ℕ) × (p : ℕ) × IsGranted tlh n c p
            (alloc_in_new tlh n w).0
            v
            (alloc_in_new tlh n w).1)
unfolding alloc_in_new finalize find_in
alloc_in_new-IsGranted tlh n v w pos small =
    let (chunk, w1) = vmm_alloc_chunk w in
    let c = span_of chunk in
    let linked = link_span tlh c (register_span tlh chunk w1) in
    let fit : Fits n linked.spans c (find_in n c linked).0 = find_in-Fits n c linked pos small in
    elim (Bool-cases (chunk == 0)) [
      | inl e ↦ inl (rw e refl)
      | inr e ↦ rw e (elim (Option-cases (find_in n c linked).0) [
        | inl f ↦ inl (rw f refl)
        | inr (p, f) ↦ rw f (
            inr (
              c,
              p,
              record {
                address = refl;
                noted = finalize_noted p n c (find_in n c linked).1 small;
                free = inr (
                  link_span_active tlh c (register_span tlh chunk w1),
                  subst (λ b. FirstFit b n p) (link_span_bitmap tlh c (register_span tlh chunk w1))
                      (subst (λ o. Fits n linked.spans c o) f fit),
                );
              },
            ))
      ])
    ]

abbrev Outcome : ℕ → ℕ → ℕ → World → ℕ → Type 0
Outcome fuel tlh size w n =
    ((span_alloc fuel tlh size w).0 ≡ 0)
    ⊎ ((c : ℕ) × (p : ℕ) × IsGranted tlh n c p (span_alloc fuel tlh size w).0 w
          (span_alloc fuel tlh size w).1)

grants :
    (fuel tlh size : ℕ) (w : World)
    → 0 < size
    → size ≤ 1048576
    → Outcome fuel tlh size w (required_pages size)
unfolding span_alloc finalize
grants fuel tlh size w pos h =
    let n = required_pages size in
    let form = required_pages_form size h in
    let n_pos : 0 < n = omega (arith, form) in
    let n_small : n < span_total_pages = omega (arith, form) in
    let (hit, w') = walk fuel n (w.tlhs tlh).active_spans w in
    let fit : Fits n w.spans hit.current hit.page_idx =
      walk-Fits fuel n (w.tlhs tlh).active_spans w n_pos n_small in
    elim (Bool-cases (leb span_total_pages n)) [
      | inl e ↦ inl (rw e refl)
      | inr e ↦ rw e (elim (Option-cases hit.page_idx) [
        | inl f ↦ rw f (alloc_in_new-IsGranted tlh n w w' n_pos n_small)
        | inr (p, f) ↦ rw f (
            inr (
              hit.current,
              p,
              record {
                address = refl;
                noted = finalize_noted p n hit.current w' n_small;
                free = inl (subst (λ o. Fits n w.spans hit.current o) f fit);
              },
            ))
      ])
    ]

-- For a size from 1 byte to 1 MB, `lz_span_alloc` returns NULL or hands out pages: the number that
-- the size needs, which were all free, at the address of the first one, and the span notes their
-- number for the free that is to come.
pub span_alloc-IsGranted :
    (fuel tlh size : ℕ) (w : World)
    → 0 < size
    → size ≤ 1048576
    → ((span_alloc fuel tlh size w).0 ≡ 0)
      ⊎ ((c : ℕ) × (p : ℕ) × IsGranted tlh
            ((size + (page_size - 1)) / page_size)
            c
            p
            (span_alloc fuel tlh size w).0
            w
            (span_alloc fuel tlh size w).1)
span_alloc-IsGranted fuel tlh size w pos h =
    subst (Outcome fuel tlh size w) (required_pages_form size h) (grants fuel tlh size w pos h)
