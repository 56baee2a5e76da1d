-- ===== src/Span/Engine/Active.antt =====
-- The list of the active spans of a thread, and the operations that leave its links alone.
pub mod New
pub mod Alloc
pub mod Free
use lzmalloc.Base.{
  ℕ, zero, suc, ◌+◌, ◌≤◌, ◌<◌, ◌≡◌, ◌≢◌, ◌⊎◌, refl, sym, ap, subst, ◌∙◌, arith, inl, inr, ◌==◌,
  ==_iff, Bool-cases, Option-cases, leb, Option, none, some, List, [], ◌∷◌, ◌++◌, mem, true, false,
  ◌||◌, ◌/◌,
}
use lzmalloc.Config.{span_total_pages, page_size}
use lzmalloc.Memory.{World, set_span}
use lzmalloc.Rtree.{rtree_clear}
use lzmalloc.Span.Links.{Linked, Linked-cons, Linked-frame, Linked-no_loop, Linked-removed}
use lzmalloc.Span.Engine.{
  span_of, find_in, walk, register_span, link_span, finalize, alloc_in_new, span_alloc,
  unlink_before, unlink_behind, batch_freed, destroy_span, span_free_local, release, required_pages,
}
use lzmalloc.Word.{sub32, u32, sub64}
use lzmalloc.Span.Engine.Walk.{AllOk}
use lzmalloc.Vmm.{vmm_alloc_chunk, vmm_free_chunk}
use lzmalloc.Vmm.Frame.{
  vmm_alloc_chunk_spans, vmm_alloc_chunk_tlhs, vmm_free_chunk_spans, vmm_free_chunk_tlhs,
}

-- the active spans of the thread whose heap is at `tlh` are the doubly linked list `xs`
abbrev pub IsActive : ℕ → List ℕ → World → Type 0
IsActive tlh xs w =
    Linked (λ a. (w.spans a).next) (λ a. (w.spans a).prev) 0 (w.tlhs tlh).active_spans xs

-- and each of them is well formed
abbrev pub IsActiveOk : ℕ → List ℕ → World → Type 0
IsActiveOk tlh xs w = IsActive tlh xs w × AllOk w.spans xs

-- no link is changed, nor the head of the list
pub record SameLinks (tlh : ℕ) (w w' : World) : Type 0 where
  next : (a : ℕ) → (w'.spans a).next ≡ (w.spans a).next
  prev : (a : ℕ) → (w'.spans a).prev ≡ (w.spans a).prev
  head : (w'.tlhs tlh).active_spans ≡ (w.tlhs tlh).active_spans

SameLinks-refl : (tlh : ℕ) (w : World) → SameLinks tlh w w
SameLinks-refl tlh w = record { next = λ a. refl; prev = λ a. refl; head = refl }

pub SameLinks-trans :
    (tlh : ℕ) (u v w : World) → SameLinks tlh u v → SameLinks tlh v w → SameLinks tlh u w
SameLinks-trans tlh u v w s t = record {
  next = λ a. t.next a ∙ s.next a;
  prev = λ a. t.prev a ∙ s.prev a;
  head = t.head ∙ s.head;
}

pub IsActive-SameLinks :
    (tlh : ℕ) (xs : List ℕ) (w w' : World)
    → SameLinks tlh w w'
    → IsActive tlh xs w
    → IsActive tlh xs w'
IsActive-SameLinks tlh xs w w' s l =
    subst (λ q. Linked (λ a. (w'.spans a).next) (λ a. (w'.spans a).prev) 0 q xs) (sym s.head)
      (Linked-frame _ _ _ _ 0 _ xs l (λ a m. (s.next a, s.prev a)))

pub find_in-SameLinks : (tlh n c : ℕ) (w : World) → SameLinks tlh w (find_in n c w).1
unfolding find_in
find_in-SameLinks tlh n c w = record {
  next = λ a. ground arith;
  prev = λ a. ground arith;
  head = refl;
}

pub finalize-SameLinks : (tlh p n c : ℕ) (w : World) → SameLinks tlh w (finalize p n c w).1
unfolding finalize
finalize-SameLinks tlh p n c w = record {
  next = λ a. ground arith;
  prev = λ a. ground arith;
  head = refl;
}

pub batch_freed-SameLinks : (tlh n : ℕ) (w : World) → SameLinks tlh w (batch_freed tlh n w)
unfolding batch_freed
batch_freed-SameLinks tlh n w = record {
  next = λ a. ground arith;
  prev = λ a. ground arith;
  head = ground arith;
}
