-- ===== src/Huge/Register.antt =====
-- What the radix tree answers behind the loops that register a mapping or forget it.
use native.Mathlib.Numerals.{unary_clauses}
use lzmalloc.Base.{
  ℕ, zero, suc, ◌+◌, ◌*◌, ◌%◌, ◌≤◌, ◌<◌, ◌≡◌, ◌⊎◌, refl, sym, subst, ◌∙◌, arith, leb, ltb, ◌&&◌,
  ◌==◌, if◌then◌else◌, inl, inr, Option, Option-cases, some, true, false, lt→ltb, le→ltb,
  Bool-cases,
}
use lzmalloc.Config.{huge_page_size}
use lzmalloc.Huge.{set_range, steps}
use lzmalloc.Os.{Os, next_mmap}
use lzmalloc.Rtree.{Root, block_num, l1_idx, alloc_internal_node, rtree_set, rtree_get}
use lzmalloc.Rtree.Index.{address_space}
use lzmalloc.Rtree.Laws.{CanStore, rtree_get-rtree_set}
use lzmalloc.Word.{add64}

-- leaves are not needed, since NULL is stored, or the operating system can map each of them
abbrev pub Mappable : ℕ → Os → Type 0
Mappable m o = (m ≡ 0) ⊎ ((j : ℕ) → (addr : ℕ) × (o.mmap_answer j ≡ some addr))

Mappable-CanStore : (a m : ℕ) (s : Root × Os) → Mappable m s.1 → CanStore a m s
Mappable-CanStore a m s (inl e) = inr (inl e)
Mappable-CanStore a m s (inr h) = inr (inr (h s.1.mmap_count))

alloc_internal_node_answers : (o : Os) → (alloc_internal_node o).1.mmap_answer ≡ o.mmap_answer
unfolding alloc_internal_node
alloc_internal_node_answers o = elim (Option-cases (next_mmap o)) [
  | inl e ↦ rw (e, alloc_internal_node) refl
  | inr (b, e) ↦ rw (e, alloc_internal_node) refl
]

rtree_set_answers : (a m : ℕ) (s : Root × Os) → (rtree_set a m s).1.mmap_answer ≡ s.1.mmap_answer
unfolding rtree_set
rtree_set_answers a m (root, o) = elim (Option-cases (root (l1_idx a))) [
  | inl e ↦
      rw (e, rtree_set)
        (elim (Bool-cases (m == 0)) [
          | inl z ↦ rw z refl
          | inr z ↦ rw z (elim (Option-cases (alloc_internal_node o).0) [
            | inl f ↦ rw f (alloc_internal_node_answers o)
            | inr (b, f) ↦ rw f (alloc_internal_node_answers o)
          ])
        ])
  | inr (leaf, e) ↦ rw (e, rtree_set) refl
]

set_range_from :
    (left i k base m p : ℕ) (s : Root × Os)
    → i + left ≡ k
    → base % huge_page_size ≡ 0
    → base + k * huge_page_size ≤ address_space
    → p < address_space
    → Mappable m s.1
    → rtree_get p (set_range (suc left) base (k * huge_page_size) m (i * huge_page_size) s).0 ≡ (
        if leb (base + i * huge_page_size) p && ltb p (base + k * huge_page_size)
        then m
        else rtree_get p s.0)
unfolding set_range
set_range_from zero i k base m p s e aligned fits hp can =
    let stop : ltb (i * huge_page_size) (k * huge_page_size) ≡ false =
      le→ltb _ _ (omega (arith, e)) in
    rw stop (ground (arith, e))
set_range_from (suc left) i k base m p s e aligned fits hp can =
    let a = base + i * huge_page_size in
    let go : ltb (i * huge_page_size) (k * huge_page_size) ≡ true = lt→ltb _ _ (omega (arith, e)) in
    let here : add64 base (i * huge_page_size) ≡ a = omega (arith, e, fits) in
    let up : add64 (i * huge_page_size) huge_page_size ≡ (i + 1) * huge_page_size =
      omega (arith, e, fits) in
    let one =
      rtree_get-rtree_set a m p s (omega (arith, e, fits)) hp (Mappable-CanStore a m s can) in
    let can' : Mappable m (rtree_set a m s).1 =
      subst (λ (f : ℕ → Option ℕ). (m ≡ 0) ⊎ ((j : ℕ) → (addr : ℕ) × (f j ≡ some addr)))
        (sym (rtree_set_answers a m s)) can in
    let block : (block_num a == block_num p) ≡ (leb a p && ltb p (a + huge_page_size)) =
      unfold block_num in ground (arith, aligned) in
    let rest =
      set_range_from left (i + 1) k base m p (rtree_set a m s) (omega (arith, e)) aligned fits hp
        can' in
    rw (go, here, up) (rest ∙ rw (one, block) (ground (arith, e)))

-- Behind the loop that registers `k` steps of 2 MB from a 2 MB boundary, a look-up gives the entry
-- for every address of the mapping and what it gave before for every other one; so it does behind
-- the loop that stores NULL. All addresses are below `2 ^ 48`, and where a header is stored the
-- operating system can map the leaves.
pub set_range_get :
    (base k m p : ℕ) (s : Root × Os)
    → base % huge_page_size ≡ 0
    → base + k * huge_page_size ≤ address_space
    → p < address_space
    → Mappable m s.1
    → rtree_get p (set_range (steps (k * huge_page_size)) base (k * huge_page_size) m 0 s).0
      ≡ (if leb base p && ltb p (base + k * huge_page_size) then m else rtree_get p s.0)
set_range_get base k m p s aligned fits hp can =
    subst
      (λ f.
        rtree_get p (set_range f base (k * huge_page_size) m 0 s).0
        ≡ (if leb base p && ltb p (base + k * huge_page_size) then m else rtree_get p s.0))
      {x = suc k} {y = steps (k * huge_page_size)} (omega arith)
      (simp unary_clauses at (set_range_from k 0 k base m p s (omega arith) aligned fits hp can))
