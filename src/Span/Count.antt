-- ===== src/Span/Count.antt =====
-- The pages in use of a well-formed span, counted: the count of used pages is no estimate that
-- hides a run of free pages.
use native.Mathlib.Numerals.{unary_clauses}
use lzmalloc.Base.{
  ℕ, zero, suc, ◌+◌, ◌-◌, ◌≤◌, ◌<◌, ◌≡◌, inl, inr, refl, subst, arith, ◌==◌, Bool-cases,
}
use lzmalloc.Config.{span_total_pages}
use lzmalloc.Memory.{Span}
use lzmalloc.Span.{Bitmap}
use lzmalloc.Span.Bitmap.{page_bit}
use lzmalloc.Span.Steps.{FirstFit}
use lzmalloc.Span.Sums.{sum}
use lzmalloc.Span.Valid.{SpanOk}

-- the number of pages in use among the first `k`
abbrev in_use : Bitmap → ℕ → ℕ
in_use bm k = sum k (λ p. 1 - page_bit bm p)

in_use-add_le : (bm : Bitmap) (k n : ℕ) → in_use bm (k + n) ≤ in_use bm k + n
unfolding sum
in_use-add_le bm k zero = simp unary_clauses (omega arith)
in_use-add_le bm k (suc n) = simp unary_clauses (omega (arith, in_use-add_le bm k n))

in_use_mono : (bm : Bitmap) (k n : ℕ) → in_use bm k ≤ in_use bm (k + n)
unfolding sum
in_use_mono bm k zero = simp unary_clauses (omega arith)
in_use_mono bm k (suc n) = simp unary_clauses (omega (arith, in_use_mono bm k n))

in_use_le : (bm : Bitmap) (k : ℕ) → in_use bm k ≤ k
unfolding sum
in_use_le bm zero = omega arith
in_use_le bm (suc k) = omega (arith, in_use_le bm k)

in_use-free :
    (bm : Bitmap) (k n : ℕ)
    → ((p : ℕ) → k ≤ p → p < k + n → page_bit bm p ≡ 1)
    → in_use bm (k + n) ≡ in_use bm k
unfolding sum
in_use-free bm k zero free = simp unary_clauses refl
in_use-free bm k (suc n) free =
    let last = free (k + n) (omega arith) (omega arith) in
    let before = in_use-free bm k n (λ p lo hi. free p lo (omega arith)) in
    simp unary_clauses (omega (arith, before, last))

in_use-busy :
    (bm : Bitmap) (k n : ℕ)
    → ((p : ℕ) → k ≤ p → p < k + n → page_bit bm p ≡ 0)
    → in_use bm (k + n) ≡ in_use bm k + n
unfolding sum
in_use-busy bm k zero busy = simp unary_clauses refl
in_use-busy bm k (suc n) busy =
    let last = busy (k + n) (omega arith) (omega arith) in
    let before = in_use-busy bm k n (λ p lo hi. busy p lo (omega arith)) in
    simp unary_clauses (omega (arith, before, last))

module _ (s : Span) (ok : SpanOk s) where
  -- The allocations that start below `k` end at `m` at the latest, none starts from `k` up to `m`,
  -- and they are counted among the pages in use below `m`.
  record Counted (k m : ℕ) : Type 0 where
    reached : k ≤ m
    capped : m ≤ span_total_pages
    bare : (p : ℕ) → k ≤ p → p < m → s.alloc_size_pages p ≡ 0
    enough : 1 + sum k s.alloc_size_pages ≤ in_use s.free_bitmap m

  allocations-Counted : (k : ℕ) → k < span_total_pages → (m : ℕ) × Counted (suc k) m
  unfolding sum
  allocations-Counted zero lt = (
    1,
    record {
      reached = omega arith;
      capped = omega arith;
      bare = λ p lo hi. absurd (omega arith);
      enough = omega (arith, ok.metadata, ok.page_zero);
    },
  )
  allocations-Counted (suc k) lt =
      let (m, h) = allocations-Counted k (omega arith) in
      let n = s.alloc_size_pages (suc k) in
      elim (Bool-cases (n == 0)) [
        | inl none_here ↦ elim (Bool-cases (m == suc k)) [
          | inl at_end ↦ (
            suc (suc k),
            record {
              reached = omega arith;
              capped = omega arith;
              bare = λ p lo hi. absurd (omega arith);
              enough = ground (arith, h.enough);
            },
          )
          | inr over ↦ (
            m,
            record {
              reached = ground (arith, h.reached);
              capped = h.capped;
              bare = λ p lo hi. h.bare p (omega arith) hi;
              enough = ground (arith, h.enough);
            },
          )
        ]
        | inr starts ↦
            let here : m ≡ suc k = ground (arith, h.reached, h.bare (suc k)) in
            (
              suc k + n,
              record {
                reached = ground arith;
                capped = ground (arith, ok.inside (suc k));
                bare = λ p lo hi. ok.apart (suc k) p (omega arith) hi;
                enough =
                    ground (arith, h.enough, in_use-busy s.free_bitmap (suc k) n (ok.busy (suc k)));
              },
            )
      ]

  -- Where `n` free pages lie in the chunk, the count of used pages leaves room for them.
  pub FirstFit-room :
      (n page : ℕ) → FirstFit s.free_bitmap n page → s.used_pages + n ≤ span_total_pages
  FirstFit-room n page fit =
      let (m, h) = allocations-Counted 511 (omega arith) in
      let bm = s.free_bitmap in
      let end : ℕ = page + n in
      let rest : ℕ = span_total_pages - end in
      let all : m + (span_total_pages - m) ≡ span_total_pages = omega (arith, h.capped) in
      let split : end + rest ≡ span_total_pages = omega (arith, fit.inside) in
      omega (
        arith,
        ok.counted,
        h.enough,
        subst (λ t. in_use bm m ≤ in_use bm t) all (in_use_mono bm m (span_total_pages - m)),
        subst (λ t. in_use bm t ≤ in_use bm end + rest) split (in_use-add_le bm end rest),
        in_use-free bm page n fit.free,
        in_use_le bm page,
        split,
      )
