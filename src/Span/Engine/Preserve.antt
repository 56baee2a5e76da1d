-- ===== src/Span/Engine/Preserve.antt =====
-- The engine keeps every span well formed, whichever span it works on.
use lzmalloc.Base.{
  ℕ, zero, suc, ◌+◌, ◌≤◌, ◌<◌, ◌≡◌, refl, sym, subst, ap, arith, inl, inr, ◌==◌, ==_iff, Bool-cases,
  Option-cases, update_self, leb, leb→le, Option, none, some,
}
use lzmalloc.Config.{span_total_pages}
use lzmalloc.Memory.{Span, World, set_span}
use lzmalloc.Span.{Bitmap}
use lzmalloc.Span.Contiguous.{Finds, find_contiguous_pages-Finds}
use lzmalloc.Span.Engine.{
  span_of, find_in, walk, pristine, register_span, link_span, finalize, alloc_in_new,
}
use lzmalloc.Span.Sums.{sum-zero}
use lzmalloc.Span.Valid.{SpanOk, claim, claim-SpanOk}
use lzmalloc.Vmm.{vmm_alloc_chunk}
use lzmalloc.Vmm.Frame.{vmm_alloc_chunk_spans}
use lzmalloc.Word.{sub32}

-- every span that was well formed still is
abbrev pub Kept : World → World → Type 0
Kept w w' = (a : ℕ) → SpanOk (w.spans a) → SpanOk (w'.spans a)

-- the memory when the page that was found, if any, is finalized
unfoldable pub settle : ℕ → ℕ → Option ℕ → World → World
settle n c none w = w
settle n c (some p) w = (finalize p n c w).1

settle-Finds :
    (n c : ℕ) (w : World) (page : Option ℕ) (bm : Bitmap)
    → 0 < n
    → n < span_total_pages
    → n ≤ sub32 span_total_pages (w.spans c).used_pages
    → Finds n (w.spans c).free_bitmap page bm
    → Kept w (settle n c page (set_span c (record (w.spans c) { free_bitmap = bm }) w))
unfolding settle finalize
settle-Finds n c w none bm pos small room (none_fits, e) a ok = elim (Bool-cases (c == a)) [
  | inl same ↦ rw same (
      subst (λ b. SpanOk (record (w.spans c) { free_bitmap = b })) (sym e)
        (subst (λ x. SpanOk (w.spans x)) (sym ((==_iff c a).0 same)) ok))
  | inr other ↦ rw other ok
]
settle-Finds n c w (some page) bm pos small room (fit, marked) a ok = elim (Bool-cases (c == a)) [
  | inl same ↦
      let ok' : SpanOk (w.spans c) =
        subst (λ x. SpanOk (w.spans x)) (sym ((==_iff c a).0 same)) ok in
      rw same (
        subst (λ t. SpanOk (claim page n t.free_bitmap t)) (sym (update_self w.spans c _))
          (claim-SpanOk (w.spans c) ok' page n bm pos (omega (arith, ok'.capped)) fit marked))
  | inr other ↦ rw other ok
]

pub find_in-Kept :
    (n c : ℕ) (w : World)
    → 0 < n
    → n < span_total_pages
    → n ≤ sub32 span_total_pages (w.spans c).used_pages
    → Kept w (settle n c (find_in n c w).0 (find_in n c w).1)
unfolding find_in
find_in-Kept n c w pos small room =
    settle-Finds n c w _ _ pos small room
      (find_contiguous_pages-Finds n (w.spans c).free_bitmap pos small)

pub walk-Kept :
    (fuel n c : ℕ) (w : World)
    → 0 < n
    → n < span_total_pages
    → let (hit, w') = walk fuel n c w in Kept w (settle n hit.current hit.page_idx w')
unfolding walk settle
walk-Kept zero n c w pos small a ok = ok
walk-Kept (suc fuel) n c w pos small a ok = elim (Bool-cases (c == 0)) [
  | inl e ↦ rw e ok
  | inr e ↦ rw e (elim (Bool-cases (leb n (sub32 span_total_pages (w.spans c).used_pages))) [
    | inl fits ↦ rw fits (
        let here : Kept w (settle n c (find_in n c w).0 (find_in n c w).1) =
          find_in-Kept n c w pos small (leb→le _ _ fits) in
        elim (Option-cases (find_in n c w).0) [
          | inl none_here ↦ rw none_here (
              walk-Kept fuel n (w.spans c).next (find_in n c w).1 pos small a (
                subst (λ o. SpanOk ((settle n c o (find_in n c w).1).spans a)) none_here
                  (here a ok)))
          | inr (p, hit) ↦
              rw hit
                (subst (λ o. SpanOk ((settle n c o (find_in n c w).1).spans a)) hit (here a ok))
        ])
    | inr full ↦ rw full (walk-Kept fuel n (w.spans c).next w pos small a ok)
  ])
]

-- the links of a span do not matter to it
pub links-SpanOk : (s : Span) (n p : ℕ) → SpanOk s → SpanOk (record s { next = n; prev = p })
links-SpanOk s n p ok = record {
  metadata = ok.metadata;
  inside = ok.inside;
  busy = ok.busy;
  apart = ok.apart;
  counted = ok.counted;
  capped = ok.capped;
  page_zero = ok.page_zero;
}

pub set_span-Kept :
    (c : ℕ) (s : Span) (w : World) → (SpanOk (w.spans c) → SpanOk s) → Kept w (set_span c s w)
set_span-Kept c s w h a ok = elim (Bool-cases (c == a)) [
  | inl same ↦ rw same (h (subst (λ x. SpanOk (w.spans x)) (sym ((==_iff c a).0 same)) ok))
  | inr other ↦ rw other ok
]

pub pristine-SpanOk :
    (n p : ℕ)
    → SpanOk (record {
      next = n;
      prev = p;
      free_bitmap = pristine;
      used_pages = 1;
      alloc_size_pages = λ i. 0;
    })
pristine-SpanOk n p = record {
  metadata = refl;
  inside = λ q lt. absurd (omega arith);
  busy = λ q r lo hi. absurd (omega arith);
  apart = λ q r lo hi. absurd (omega arith);
  counted = ap (λ x. 1 + x) (sym (sum-zero span_total_pages));
  capped = omega arith;
  page_zero = refl;
}

link_span-Kept : (tlh c : ℕ) (w : World) → Kept w (link_span tlh c w)
unfolding link_span
link_span-Kept tlh c w a ok =
    let head = (w.tlhs tlh).active_spans in
    let fresh : Span = record {
      next = head;
      prev = 0;
      free_bitmap = pristine;
      used_pages = 1;
      alloc_size_pages = λ i. 0;
    } in
    let w1 = set_span c fresh w in
    let ok1 : SpanOk (w1.spans a) = set_span-Kept c fresh w (λ h. pristine-SpanOk head 0) a ok in
    elim (Bool-cases (head == 0)) [
      | inl e ↦ rw e ok1
      | inr e ↦ rw e (
          set_span-Kept head (record (w1.spans head) { prev = c }) w1
            (λ h. links-SpanOk (w1.spans head) (w1.spans head).next c h) a ok1)
    ]

pub link_span_used : (tlh c : ℕ) (w : World) → ((link_span tlh c w).spans c).used_pages ≡ 1
unfolding link_span
link_span_used tlh c w = ground arith

register_span_spans : (tlh chunk : ℕ) (w : World) → (register_span tlh chunk w).spans ≡ w.spans
unfolding register_span
register_span_spans tlh chunk w = refl

pub alloc_in_new-Kept :
    (tlh n : ℕ) (w : World) → 0 < n → n < span_total_pages → Kept w (alloc_in_new tlh n w).1
unfolding alloc_in_new settle
alloc_in_new-Kept tlh n w pos small a ok =
    let (chunk, w1) = vmm_alloc_chunk w in
    let c = span_of chunk in
    let linked = link_span tlh c (register_span tlh chunk w1) in
    let ok1 : SpanOk (w1.spans a) = subst (λ m. SpanOk (m a)) (sym (vmm_alloc_chunk_spans w)) ok in
    let ok2 : SpanOk (linked.spans a) =
      link_span-Kept tlh c (register_span tlh chunk w1) a
        (subst (λ m. SpanOk (m a)) (sym (register_span_spans tlh chunk w1)) ok1) in
    let settled : Kept linked (settle n c (find_in n c linked).0 (find_in n c linked).1) =
      find_in-Kept n c linked pos small
        (rw (link_span_used tlh c (register_span tlh chunk w1)) (omega (arith, small))) in
    elim (Bool-cases (chunk == 0)) [
      | inl e ↦ rw e ok1
      | inr e ↦ rw e (elim (Option-cases (find_in n c linked).0) [
        | inl f ↦
            rw f (
              subst (λ o. SpanOk ((settle n c o (find_in n c linked).1).spans a)) f (settled a ok2))
        | inr (p, f) ↦
            rw f (
              subst (λ o. SpanOk ((settle n c o (find_in n c linked).1).spans a)) f (settled a ok2))
      ])
    ]
