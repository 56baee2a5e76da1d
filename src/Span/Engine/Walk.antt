-- ===== src/Span/Engine/Walk.antt =====
-- The walk of `lz_span_alloc` over the active spans.
use lzmalloc.Base.{
  ◌⊎◌, sym, ◌∙◌, ℕ, zero, suc, ◌+◌, ◌-◌, ◌/◌, ◌≤◌, ◌<◌, ◌≡◌, refl, ap, fun_ext, subst, arith, inl,
  inr, ◌==◌, Bool-cases, Option-cases, leb, Option, none, some, List, [], ◌∷◌, length, Chain, mem,
  true, false,
}
use lzmalloc.Config.{span_total_pages, page_size}
use lzmalloc.Memory.{Span, World}
use lzmalloc.Span.{find_contiguous_pages}
use lzmalloc.Span.Contiguous.{Finds, find_contiguous_pages-Finds}
use lzmalloc.Span.Count.{FirstFit-room}
use lzmalloc.Span.Engine.{required_pages, find_in, walk, finalize, alloc_in_new, span_alloc, Hit}
use lzmalloc.Span.Engine.Grant.{find_in-none}
use lzmalloc.Span.Engine.Laws.{required_pages_form}
use lzmalloc.Span.Valid.{SpanOk}
use lzmalloc.Word.{sub32}

-- the first of the spans in which there is room for `n` pages, and the page
unfoldable pub first_room : ℕ → (ℕ → Span) → List ℕ → Option (ℕ × ℕ)
first_room n spans [] = none
first_room n spans (x ∷ xs) = elim (find_contiguous_pages n (spans x).free_bitmap).0 [
  | none ↦ first_room n spans xs
  | some p ↦ some (x, p)
]

-- the request served from the page that was chosen, with the pages marked, or from a new span
abbrev pub serve : ℕ → ℕ → World → Option (ℕ × ℕ) → ℕ × World
serve tlh n w none = alloc_in_new tlh n w
serve tlh n w (some (c, p)) = finalize p n c (find_in n c w).1

-- every span of the list is well formed
abbrev pub AllOk : (ℕ → Span) → List ℕ → Type 0
AllOk spans xs = (a : ℕ) → mem a xs ≡ true → SpanOk (spans a)

-- The count of used pages passes over no span in which the search succeeds.
fits_where_found :
    (n c p : ℕ) (w : World)
    → 0 < n
    → n < span_total_pages
    → SpanOk (w.spans c)
    → (find_in n c w).0 ≡ some p
    → leb n (sub32 span_total_pages (w.spans c).used_pages) ≡ true
unfolding find_in
fits_where_found n c p w pos small ok =
    from _ _ (find_contiguous_pages-Finds n (w.spans c).free_bitmap pos small)
  where
    from :
        (page : Option ℕ) (bm : ℕ → ℕ)
        → Finds n (w.spans c).free_bitmap page bm
        → page ≡ some p
        → leb n (sub32 span_total_pages (w.spans c).used_pages) ≡ true
    from none bm f e = absurd (ground (arith, e))
    from (some q) bm f e = ground (arith, ok.capped, FirstFit-room (w.spans c) ok n q f.0)

-- what follows the walk
unfoldable pub after_walk : ℕ → ℕ → Hit × World → ℕ × World
after_walk tlh n r = elim r.0.page_idx [
  | none ↦ alloc_in_new tlh n r.1
  | some p ↦ finalize p n r.0.current r.1
]

-- the search without a result leaves the memory as it is
find_in_same :
    (n c : ℕ) (w : World)
    → 0 < n
    → n < span_total_pages
    → (find_in n c w).0 ≡ none
    → (find_in n c w).1 ≡ w
unfolding find_in
find_in_same n c w pos small e =
    ap (λ m. record w { spans = m }) (fun_ext (find_in-none n c w pos small e))

walk-null :
    (fuel n : ℕ) (w : World) → walk (suc fuel) n 0 w ≡ (record { current = 0; page_idx = none }, w)
unfolding walk
walk-null fuel n w = refl

walk-missed :
    (fuel n c : ℕ) (w : World)
    → 0 < n
    → n < span_total_pages
    → (c == 0) ≡ false
    → (find_in n c w).0 ≡ none
    → walk (suc fuel) n c w ≡ walk fuel n (w.spans c).next w
unfolding walk
walk-missed fuel n c w pos small nonzero missed =
    rw nonzero (elim (Bool-cases (leb n (sub32 span_total_pages (w.spans c).used_pages))) [
      | inl fits ↦
          rw (fits, missed)
            (ap (λ m. walk fuel n (w.spans c).next m) (find_in_same n c w pos small missed))
      | inr full ↦ rw full refl
    ])

walk-found :
    (fuel n c p : ℕ) (w : World)
    → (c == 0) ≡ false
    → leb n (sub32 span_total_pages (w.spans c).used_pages) ≡ true
    → (find_in n c w).0 ≡ some p
    → walk (suc fuel) n c w ≡ (record { current = c; page_idx = some p }, (find_in n c w).1)
unfolding walk
walk-found fuel n c p w nonzero fits found = rw (nonzero, fits, found) refl

first_room-missed :
    (n c : ℕ) (xs : List ℕ) (w : World)
    → (find_in n c w).0 ≡ none
    → first_room n w.spans (c ∷ xs) ≡ first_room n w.spans xs
unfolding first_room find_in
first_room-missed n c xs w missed = rw (missed, first_room) refl

first_room-found :
    (n c p : ℕ) (xs : List ℕ) (w : World)
    → (find_in n c w).0 ≡ some p
    → first_room n w.spans (c ∷ xs) ≡ some (c, p)
unfolding first_room find_in
first_room-found n c p xs w found = rw (found, first_room) refl

-- The walk ends with the memory as it was, or at a search that found a page.
abbrev pub WalkEnds : ℕ → World → Hit × World → Type 0
WalkEnds n w r =
    ((c : ℕ) × (r ≡ (record { current = c; page_idx = none }, w)))
    ⊎ ((c : ℕ) × (p : ℕ) × (r ≡ (record { current = c; page_idx = some p }, (find_in n c w).1)))

pub walk-WalkEnds :
    (fuel n c : ℕ) (w : World) → 0 < n → n < span_total_pages → WalkEnds n w (walk fuel n c w)
unfolding walk
walk-WalkEnds zero n c w pos small = inl (c, refl)
walk-WalkEnds (suc fuel) n c w pos small =
    let rest = walk-WalkEnds fuel n (w.spans c).next w pos small in
    elim (Bool-cases (c == 0)) [
      | inl e ↦ inl (c, rw e refl)
      | inr e ↦ elim (Option-cases (find_in n c w).0) [
        | inl missed ↦ subst (WalkEnds n w) (sym (walk-missed fuel n c w pos small e missed)) rest
        | inr (p, found) ↦
            elim (Bool-cases (leb n (sub32 span_total_pages (w.spans c).used_pages))) [
              | inl fits ↦ inr (c, p, walk-found fuel n c p w e fits found)
              | inr full ↦ rw (e, full) rest
            ]
      ]
    ]

walk-serve :
    (fuel tlh n c : ℕ) (xs : List ℕ) (w : World)
    → 0 < n
    → n < span_total_pages
    → length xs < fuel
    → Chain (λ a. (w.spans a).next) c xs
    → AllOk w.spans xs
    → after_walk tlh n (walk fuel n c w) ≡ serve tlh n w (first_room n w.spans xs)
unfolding after_walk first_room
walk-serve zero tlh n c xs w pos small lt chain ok = absurd (omega arith)
walk-serve (suc fuel) tlh n c [] w pos small lt chain ok = rw (chain, walk-null fuel n w) refl
walk-serve (suc fuel) tlh n c (x ∷ xs) w pos small lt (e, ne, out, chain) ok =
    let nonzero : (x == 0) ≡ false = ground arith in
    let rest =
      walk-serve fuel tlh n (w.spans x).next xs w pos small (omega arith) chain
        (λ a h. ok a (ground (arith, h))) in
    rw e (elim (Option-cases (find_in n x w).0) [
      | inl missed ↦
          rw (walk-missed fuel n x w pos small nonzero missed, first_room-missed n x xs w missed)
            rest
      | inr (p, found) ↦
          rw
            (
              walk-found fuel n x p w nonzero
                  (fits_where_found n x p w pos small (ok x (ground arith)) found) found,
              first_room-found n x p xs w found,
            )
            refl
    ])

pub span_alloc-after_walk :
    (fuel tlh size : ℕ) (w : World)
    → required_pages size < span_total_pages
    → let n = required_pages size in
      span_alloc fuel tlh size w ≡ after_walk tlh n (walk fuel n (w.tlhs tlh).active_spans w)
unfolding span_alloc after_walk
span_alloc-after_walk fuel tlh size w small =
    let fits : leb span_total_pages (required_pages size) ≡ false = ground arith in rw fits refl

-- For a size from 1 byte to 1 MB, a thread whose active spans are the list `xs`, all well formed,
-- is served from the first of them whose bitmap has room for the pages, at the first run of free
-- pages there, or from a new span when none has: neither the links, nor the count of used pages that
-- passes over spans, nor the bound on the walk changes the choice, once the bound is above the
-- number of active spans.
pub span_alloc-serve :
    (fuel tlh size : ℕ) (xs : List ℕ) (w : World)
    → 0 < size
    → size ≤ 1048576
    → length xs < fuel
    → Chain (λ a. (w.spans a).next) (w.tlhs tlh).active_spans xs
    → AllOk w.spans xs
    → let n = (size + (page_size - 1)) / page_size in
      span_alloc fuel tlh size w ≡ serve tlh n w (first_room n w.spans xs)
span_alloc-serve fuel tlh size xs w pos h lt chain ok =
    let n = required_pages size in
    let form = required_pages_form size h in
    let n_pos : 0 < n = omega (arith, form) in
    let n_small : n < span_total_pages = omega (arith, form) in
    let head = (w.tlhs tlh).active_spans in
    subst (λ k. span_alloc fuel tlh size w ≡ serve tlh k w (first_room k w.spans xs)) form
      (span_alloc-after_walk fuel tlh size w n_small
        ∙ walk-serve fuel tlh n head xs w n_pos n_small lt chain ok)
