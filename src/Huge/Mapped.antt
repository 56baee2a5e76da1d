-- ===== src/Huge/Mapped.antt =====
-- The memory of an object of its own is mapped: trimming leaves it alone, and so do the loops that
-- register it.
use lzmalloc.Base.{
  ℕ, zero, suc, ◌+◌, ◌≤◌, ◌<◌, ◌≡◌, sym, subst, arith, Option, none, some, List, ◌∷◌, true, ltb,
  ◌==◌, Bool-cases, Option-cases, inl, inr,
}
use lzmalloc.Bits.{bit_and_mask}
use lzmalloc.Config.{huge_page_size}
use lzmalloc.Huge.{trim_huge, sys_alloc_huge_aligned, set_range}
use lzmalloc.Os.{Os, OsCall, mmap, next_mmap, is_mapped, sys_mmap}
use lzmalloc.Rtree.{Root, leaf_size, l1_idx, alloc_internal_node, rtree_set}
use lzmalloc.Vmm.Cache.{round_up}
use lzmalloc.Word.{word_mod, add64}
use lzmalloc.Word.Align.{align_up-pow}

-- one more call of `mmap`
mmap-mapped :
    (p len : ℕ) (answer : Option ℕ) (cs : List OsCall)
    → is_mapped p cs ≡ true
    → is_mapped p (mmap answer len ∷ cs) ≡ true
mmap-mapped p len none cs m = m
mmap-mapped p len (some addr) cs m = ground (arith, m)

sys_mmap-mapped :
    (p len : ℕ) (o : Os) → is_mapped p o.calls ≡ true → is_mapped p (sys_mmap len o).1.calls ≡ true
unfolding sys_mmap
sys_mmap-mapped p len o m = mmap-mapped p len (next_mmap o) o.calls m

-- the bytes that it maps
sys_mmap-covers :
    (p len raw : ℕ) (o : Os)
    → next_mmap o ≡ some raw
    → raw ≤ p
    → p < raw + len
    → is_mapped p (sys_mmap len o).1.calls ≡ true
unfolding sys_mmap
sys_mmap-covers p len raw o e low high =
    subst (λ a. is_mapped p (mmap a len ∷ o.calls) ≡ true) (sym e) (ground (arith, low, high))

trim_huge-mapped :
    (total raw p : ℕ) (o : Os)
    → raw + total + huge_page_size < word_mod
    → round_up raw ≤ p
    → p < round_up raw + total
    → is_mapped p o.calls ≡ true
    → is_mapped p (trim_huge total raw o).1.calls ≡ true
unfolding trim_huge
trim_huge-mapped total raw p o fits low high m =
    ground (arith, bit_and_mask 21 raw, align_up-pow 21 raw, m)

pub sys_alloc_huge_aligned-mapped :
    (total raw p : ℕ) (o : Os)
    → next_mmap o ≡ some raw
    → raw + total + huge_page_size < word_mod
    → round_up raw ≤ p
    → p < round_up raw + total
    → is_mapped p (sys_alloc_huge_aligned total o).1.calls ≡ true
unfolding sys_alloc_huge_aligned
sys_alloc_huge_aligned-mapped total raw p o e fits low high =
    rw (e, sys_alloc_huge_aligned)
      (trim_huge-mapped total raw p _ fits low high (
        sys_mmap-covers p (add64 total huge_page_size) raw o e (omega (arith, low))
          (omega (arith, fits, high))))

alloc_internal_node-mapped :
    (p : ℕ) (o : Os)
    → is_mapped p o.calls ≡ true
    → is_mapped p (alloc_internal_node o).1.calls ≡ true
unfolding alloc_internal_node
alloc_internal_node-mapped p o m = elim (Option-cases (next_mmap o)) [
  | inl e ↦ rw (e, alloc_internal_node) (sys_mmap-mapped p leaf_size o m)
  | inr (b, e) ↦ rw (e, alloc_internal_node) (sys_mmap-mapped p leaf_size o m)
]

rtree_set-mapped :
    (a m p : ℕ) (s : Root × Os)
    → is_mapped p s.1.calls ≡ true
    → is_mapped p (rtree_set a m s).1.calls ≡ true
unfolding rtree_set
rtree_set-mapped a m p (root, o) h = elim (Option-cases (root (l1_idx a))) [
  | inl e ↦
      rw (e, rtree_set)
        (elim (Bool-cases (m == 0)) [
          | inl z ↦ rw z h
          | inr z ↦ rw z (elim (Option-cases (alloc_internal_node o).0) [
            | inl f ↦ rw f (alloc_internal_node-mapped p o h)
            | inr (b, f) ↦ rw f (alloc_internal_node-mapped p o h)
          ])
        ])
  | inr (leaf, e) ↦ rw (e, rtree_set) h
]

pub set_range-mapped :
    (fuel base total m offset p : ℕ) (s : Root × Os)
    → is_mapped p s.1.calls ≡ true
    → is_mapped p (set_range fuel base total m offset s).1.calls ≡ true
unfolding set_range
set_range-mapped zero base total m offset p s h = h
set_range-mapped (suc fuel) base total m offset p s h =
    let a = add64 base offset in
    elim (Bool-cases (ltb offset total)) [
      | inl e ↦ rw e (
          set_range-mapped fuel base total m (add64 offset huge_page_size) p (rtree_set a m s)
            (rtree_set-mapped a m p s h))
      | inr e ↦ rw e h
    ]
