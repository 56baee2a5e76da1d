-- ===== src/Vmm/Alloc.antt =====
-- `lz_vmm_alloc_chunk` implements `take` on the stacks of chunks.
use lzmalloc.Base.{
  ℕ, ◌<◌, ◌≡◌, ◌≢◌, ◌⊎◌, ==_iff, inl, inr, refl, arith, sym, subst, ap, ◌∙◌, List, [], ◌∷◌, true,
  mem, Chain, Chain-frame, length, update, ◌==◌, ==_of_ne, if◌then◌else◌, Bool-cases,
}
use lzmalloc.Chunk.{chunk_magic}
use lzmalloc.Config.{max_numa_nodes}
use lzmalloc.Memory.{World}
use lzmalloc.Os.{next_mmap, sys_getcpu}
use lzmalloc.Topology.{
  get_current_node, get_current_node-lt, get_current_node_world, topology_get_pool_self,
}
use lzmalloc.Vmm.{vmm_alloc_chunk, alloc_global, pop_global, pop_local}
use lzmalloc.Vmm.Cache.{Cache, Holds, NotCached, nexts, take, take_global, refill, pop}
use lzmalloc.Vmm.Extent.{Holds-os}
use lzmalloc.Vmm.Fresh.{MapsFresh, cache, refill-Holds}

-- the header of a chunk that is handed out: it is off every list and linked to nothing
pub record IsIsolated (w : World) (c : Cache) (chunk : ℕ) : Type 0 where
  pub not_null : chunk ≢ 0
  pub not_cached : NotCached c chunk
  pub unlinked : nexts w chunk ≡ 0
  pub magic : (w.headers chunk).magic ≡ chunk_magic

-- what popping a stack comes to
abbrev pub IsPopped : ℕ × World → ℕ × Cache → Type 0
IsPopped (chunk, w) (taken, c) = (chunk ≡ taken) × Holds w c × (chunk ≢ 0 → IsIsolated w c chunk)

pub pop_global-cons :
    (node : ℕ) (w : World) (l : ℕ → List ℕ) (r : List ℕ)
    → w.global_free_chunks ≢ 0
    → Holds w (cache l (w.global_free_chunks ∷ r))
    → IsPopped (pop_global node w) (w.global_free_chunks, cache l r)
unfolding pop_global
pop_global-cons node w l r ne h = rw (==_of_ne _ 0 ne) (
  refl,
  record {
    local = λ i lt.
        Chain-frame (nexts w) _ _ (l i) (h.local i lt)
          (λ b m. ground (arith, h.apart_global i b lt m));
    counted = h.counted;
    capped = h.capped;
    global = Chain-frame (nexts w) _ _ r h.global.3 (λ b m. ground (arith, h.global));
    apart = h.apart;
    apart_global = λ i b lt m. ground (arith, h.apart_global i b lt m);
    home = λ i b lt m. ground (arith, h.apart_global i b lt m, h.home i b lt m);
  },
  λ _. record {
    not_null = ne;
    not_cached = record {
      not_local = λ i lt. ground (arith, h.apart_global i w.global_free_chunks lt);
      not_global = h.global.2;
    };
    unlinked = ground arith;
    magic = ground arith;
  },
)

pub pop_global-pop :
    (node : ℕ) (w : World) (l : ℕ → List ℕ) (g : List ℕ)
    → Holds w (cache l g)
    → IsPopped (pop_global node w) ((pop g).0, cache l (pop g).1)
unfolding pop_global
pop_global-pop node w l [] h =
    let null : (w.global_free_chunks == 0) ≡ true = ground (arith, h.global) in
    rw null (refl, h, λ ne. absurd (ne refl))
pop_global-pop node w l (x ∷ g) h =
    let (e, ne, out, tail) = h.global in
    subst (λ t. IsPopped (pop_global node w) (t, cache l g)) e
      (pop_global-cons node w l g (λ z. ne (sym e ∙ z))
        (subst (λ t. Holds w (cache l (t ∷ g))) (sym e) h))

pub pop_local-cons :
    (i : ℕ) (w : World) (c : Cache) (r : List ℕ)
    → i < max_numa_nodes
    → (w.pools i).free_chunks ≢ 0
    → c.local i ≡ (w.pools i).free_chunks ∷ r
    → Holds w c
    → IsPopped (pop_local i w) ((w.pools i).free_chunks, record c { local = update c.local i r })
unfolding pop_local
pop_local-cons i w c r hi ne top h = (
  refl,
  record {
    local = λ j lt. elim (Bool-cases (i == j)) [
      | inl e ↦ rw e (Chain-frame (nexts w) _ _ r chain.3 (λ b m. ground (arith, chain)))
      | inr e ↦ rw e (
          Chain-frame (nexts w) _ _ (c.local j) (h.local j lt)
            (λ b m. ground (arith, h.apart i j a hi lt, here, m)))
    ];
    counted = λ j lt. elim (Bool-cases (i == j)) [
      | inl e ↦ rw e (omega (arith, h.counted i hi, h.capped i hi, ap length top))
      | inr e ↦ rw e (h.counted j lt)
    ];
    capped = λ j lt. elim (Bool-cases (i == j)) [
      | inl e ↦ rw e (omega (arith, h.capped i hi, ap length top))
      | inr e ↦ rw e (h.capped j lt)
    ];
    global =
        Chain-frame (nexts w) _ _ c.global h.global
          (λ b m. ground (arith, h.apart_global i a hi here, m));
    apart = λ p q b lp lq ne' m. ground (arith, h.apart p q b lp lq, below b);
    apart_global = λ p b lp m. ground (arith, h.apart_global p b lp, below b);
    home = λ p b lp m. ground (arith, h.home p b lp, below b, chain, h.apart i p a hi lp);
  },
  λ _. record {
    not_null = ne;
    not_cached = record {
      not_local = λ j lt. ground (arith, h.apart i j a hi lt, chain);
      not_global = h.apart_global i a hi here;
    };
    unlinked = ground arith;
    magic = ground (arith, h.home i a hi here);
  },
)
  where
    a : ℕ
    a = (w.pools i).free_chunks

    chain : Chain (nexts w) a (a ∷ r)
    chain = subst (Chain (nexts w) a) top (h.local i hi)

    here : mem a (c.local i) ≡ true
    here = ground (arith, ap (mem a) top)

    below : (b : ℕ) → mem b r ≡ true → mem b (c.local i) ≡ true
    below b m = ground (arith, ap (mem b) top)

alloc_global-take :
    (node : ℕ) (w : World) (l : ℕ → List ℕ) (g : List ℕ)
    → Holds w (cache l g)
    → MapsFresh w (cache l g)
    → IsPopped (alloc_global node w) (take_global (next_mmap w.os) (cache l g))
unfolding alloc_global
alloc_global-take node w l g h fresh =
    pop_global-pop node _ l (refill (next_mmap w.os) g) (refill-Holds w l g h fresh)

vmm_alloc_chunk-take :
    (node : ℕ) (w : World) (c : Cache) (xs : List ℕ)
    → c.local node ≡ xs
    → node < max_numa_nodes
    → Holds w c
    → MapsFresh w c
    → IsPopped
        (if (w.pools node).free_chunks == 0 then alloc_global node w else pop_local node w)
        (take node (next_mmap w.os) c)
vmm_alloc_chunk-take node w c [] e lt h fresh =
    let top = subst (Chain (nexts w) (w.pools node).free_chunks) e (h.local node lt) in
    let null : ((w.pools node).free_chunks == 0) ≡ true = ground (arith, top) in
    rw (null, take, e) (alloc_global-take node w c.local c.global h fresh)
vmm_alloc_chunk-take node w c (x ∷ xs) e lt h fresh =
    let top = subst (Chain (nexts w) (w.pools node).free_chunks) e (h.local node lt) in
    let ne : (w.pools node).free_chunks ≢ 0 = λ z. top.1 (sym top.0 ∙ z) in
    let some_left = ==_of_ne (w.pools node).free_chunks 0 ne in
    let head : c.local node ≡ (w.pools node).free_chunks ∷ xs = e ∙ ap (λ t. t ∷ xs) (sym top.0) in
    rw (some_left, take, head) (pop_local-cons node w c xs lt ne head h)

taken_or_null :
    (w : World) (c : Cache)
    → Holds w c
    → MapsFresh w c
    → let (chunk, w') = vmm_alloc_chunk w in
      let (taken, c') = take (get_current_node w).0 (next_mmap w.os) c in
      (chunk ≡ taken) × Holds w' c' × (chunk ≢ 0 → IsIsolated w' c' chunk)
unfolding vmm_alloc_chunk sys_getcpu
taken_or_null w c h fresh =
    let node = (get_current_node w).0 in
    let lt = get_current_node-lt w in
    rw (get_current_node_world w, topology_get_pool_self node lt)
      (vmm_alloc_chunk-take node (record w { os = (sys_getcpu w.os).1 }) c (c.local node) refl lt
        (Holds-os w c _ h) fresh)

-- `lz_vmm_alloc_chunk` is `take` on the stacks: with the linked lists of the pools standing for the
-- stacks `c` before, it returns the chunk that `take` takes for the node of the running thread, or
-- NULL where that finds none, and the lists stand for the stacks that `take` leaves. A chunk that is
-- returned is on no list any more, its `next` is NULL and its magic number is set. Mappings that
-- the operating system answers are fresh.
pub vmm_alloc_chunk_refines :
    (w : World) (c : Cache)
    → Holds w c
    → MapsFresh w c
    → let (chunk, w') = vmm_alloc_chunk w in
      let (taken, c') = take (get_current_node w).0 (next_mmap w.os) c in
      (chunk ≡ taken) × Holds w' c' × ((chunk ≡ 0) ⊎ IsIsolated w' c' chunk)
vmm_alloc_chunk_refines w c h fresh =
    let (same, held, isolated) = taken_or_null w c h fresh in
    (
      same,
      held,
      elim (Bool-cases ((vmm_alloc_chunk w).0 == 0)) [
        | inl e ↦ inl ((==_iff (vmm_alloc_chunk w).0 0).0 e)
        | inr e ↦ inr (isolated (λ z. ground (arith, z, e)))
      ],
    )
