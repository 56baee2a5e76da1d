-- ===== src/Vmm/Purge.antt =====
-- `lz_vmm_purge_all_caches` moves every cached chunk to the global list.
use lzmalloc.Base.{
  ℕ, zero, suc, ◌+◌, ◌<◌, ◌≡◌, ◌≢◌, inl, inr, ◌↔◌, refl, arith, sym, subst, ◌∙◌, List, [], ◌∷◌,
  true, false, ◌||◌, mem, Chain, Chain-frame, length, update, ◌==◌, ==_of_ne, Bool-cases,
}
use lzmalloc.Config.{max_numa_nodes}
use lzmalloc.Memory.{World, set_pool}
use lzmalloc.Topology.{topology_get_pool_self}
use lzmalloc.Vmm.{deflate, push_global, purge_loop, purge_pool, purge_from, vmm_purge_all_caches}
use lzmalloc.Vmm.Cache.{Cache, Holds, NotCached, nexts}
use lzmalloc.Vmm.Extent.{push_global-Holds}
use lzmalloc.Vmm.Free.{deflate-Holds}

-- moving a list to the global stack turns it round
unfoldable pub drain : List ℕ → List ℕ → List ℕ
drain [] g = g
drain (x ∷ xs) g = drain xs (x ∷ g)

-- The drain loop moves a whole list, given fuel above its length.
purge_loop-Holds :
    (fuel chunk : ℕ) (w : World) (c : Cache) (xs : List ℕ)
    → Holds w c
    → Chain (nexts w) chunk xs
    → ((a : ℕ) → mem a xs ≡ true → NotCached c a)
    → length xs < fuel
    → Holds (purge_loop fuel chunk w) (record c { global = drain xs c.global })
unfolding purge_loop drain
purge_loop-Holds zero chunk w c xs h ch out enough = absurd (omega arith)
purge_loop-Holds (suc fuel) chunk w c [] h ch out enough =
    let null : (chunk == 0) ≡ true = ground (arith, ch) in rw null h
purge_loop-Holds (suc fuel) chunk w c (x ∷ xs) h ch out enough = rw (==_of_ne chunk 0 ne) (
    subst
      (λ t.
        Holds (purge_loop fuel (nexts w chunk) w') (record c { global = drain xs (t ∷ c.global) }))
      ch.0
      (purge_loop-Holds fuel (nexts w chunk) w' (record c { global = chunk ∷ c.global }) xs
        (push_global-Holds (deflate chunk w) c chunk ne (deflate-Holds w c chunk h)
          (out chunk here))
        (Chain-frame (nexts w) (nexts w') (nexts w chunk) xs rest
          (λ b m. unfold push_global deflate in ground (arith, m, apart)))
        (λ b m. record {
          not_local = (out b (below b m)).not_local;
          not_global = ground (arith, (out b (below b m)).not_global, apart);
        })
        (omega arith)))
  where
    w' : World
    w' = push_global chunk (deflate chunk w)

    ne : chunk ≢ 0
    ne z = ch.1 (sym ch.0 ∙ z)

    here : mem chunk (x ∷ xs) ≡ true
    here = ground (arith, ch)

    below : (b : ℕ) → mem b xs ≡ true → mem b (x ∷ xs) ≡ true
    below b m = ground arith

    apart : mem chunk xs ≡ false
    apart = subst (λ t. mem t xs ≡ false) (sym ch.0) ch.2

    rest : Chain (nexts w) (nexts w chunk) xs
    rest = subst (λ t. Chain (nexts w) (nexts w t) xs) (sym ch.0) ch.3

-- emptying the list head of a pool
pub clear_pool-Holds :
    (w : World) (c : Cache) (i : ℕ)
    → Holds w c
    → Holds
        (set_pool i (record { free_chunks = 0; available_count = 0 }) w)
        (record c { local = update c.local i [] })
clear_pool-Holds w c i h = record {
  local = λ j lt. elim (Bool-cases (i == j)) [ inl e ↦ rw e refl | inr e ↦ rw e (h.local j lt) ];
  counted = λ j lt. ground (arith, h.counted j lt);
  capped = λ j lt. ground (arith, h.capped j lt);
  global = h.global;
  apart = λ p q b lp lq ne m. ground (arith, h.apart p q b lp lq);
  apart_global = λ p b lp m. ground (arith, h.apart_global p b lp);
  home = λ p b lp m. ground (arith, h.home p b lp);
}

-- the stacks after one round
abbrev drained : ℕ → Cache → Cache
drained i c = record { local = update c.local i []; global = drain (c.local i) c.global }

purge_pool-Holds :
    (w : World) (c : Cache) (i : ℕ)
    → i < max_numa_nodes
    → Holds w c
    → Holds (purge_pool i w) (drained i c)
unfolding purge_pool
purge_pool-Holds w c i lt h = rw (topology_get_pool_self i lt) (
    purge_loop-Holds ((w.pools i).available_count + 1) (w.pools i).free_chunks
      (set_pool i (record { free_chunks = 0; available_count = 0 }) w)
      (record c { local = update c.local i [] }) (c.local i) (clear_pool-Holds w c i h)
      (h.local i lt)
      (λ a m. record {
        not_local = λ j lj. ground (arith, h.apart i j a lt lj);
        not_global = h.apart_global i a lt m;
      })
      (omega (arith, h.counted i lt)))

mem-drain : (a : ℕ) (xs g : List ℕ) → mem a (drain xs g) ≡ (mem a xs || mem a g)
unfolding drain
mem-drain a [] g = refl
mem-drain a (x ∷ xs) g = ground (arith, mem-drain a xs (x ∷ g))

NotCached-drained :
    (c : Cache) (i a : ℕ) → i < max_numa_nodes → NotCached c a ↔ NotCached (drained i c) a
NotCached-drained c i a lt = (
  λ n. record {
    not_local = λ j lj. ground (arith, n.not_local j lj);
    not_global = ground (arith, mem-drain a (c.local i) c.global, n.not_local i lt, n.not_global);
  },
  λ n. record {
    not_local =
        λ j lj. ground (arith, mem-drain a (c.local i) c.global, n.not_local j lj, n.not_global);
    not_global = ground (arith, mem-drain a (c.local i) c.global, n.not_global);
  },
)

-- `c'` caches the chunks of `c`, all of them behind the nodes
pub record IsPurged (w : World) (c : Cache) : Type 0 where
  pub stacks : Cache
  pub holds : Holds w stacks
  pub empty : (i : ℕ) → i < max_numa_nodes → stacks.local i ≡ []
  pub same : (a : ℕ) → NotCached c a ↔ NotCached stacks a

purge_from-IsPurged :
    (left i : ℕ) (w : World) (c : Cache)
    → i + left ≡ max_numa_nodes
    → Holds w c
    → ((j : ℕ) → j < i → c.local j ≡ [])
    → IsPurged (purge_from left i w) c
unfolding purge_from
purge_from-IsPurged zero i w c e h done = record {
  stacks = c;
  holds = h;
  empty = λ j lt. done j (omega arith);
  same = λ a. (λ n. n, λ n. n);
}
purge_from-IsPurged (suc left) i w c e h done =
    let lt : i < max_numa_nodes = omega arith in
    let rest =
      purge_from-IsPurged left (i + 1) (purge_pool i w) (drained i c) (omega arith)
        (purge_pool-Holds w c i lt h) (λ j lj. ground (arith, done j)) in
    record {
      stacks = rest.stacks;
      holds = rest.holds;
      empty = rest.empty;
      same = λ a.
          let here = NotCached-drained c i a lt in
          (λ n. (rest.same a).0 (here.0 n), λ n. here.1 ((rest.same a).1 n));
    }

-- `lz_vmm_purge_all_caches` empties the list of every node and loses no chunk: the lists stand
-- for stacks that are empty at all 16 nodes, and a chunk is cached after exactly when it was
-- cached before.
pub vmm_purge_all_caches-IsPurged :
    (w : World) (c : Cache) → Holds w c → IsPurged (vmm_purge_all_caches w) c
unfolding vmm_purge_all_caches
vmm_purge_all_caches-IsPurged w c h =
    purge_from-IsPurged max_numa_nodes 0 w c refl h (λ j lj. absurd (omega arith))
