-- ===== src/Vmm/Threads/Sections.antt =====
-- Each section of vmm.c makes one change to the lists of chunks.
use lzmalloc.Base.{
  ℕ, ◌<◌, ◌≡◌, ◌≢◌, inl, inr, refl, arith, Bool, true, false, ◌==◌, List, ◌∷◌, mem, Chain-ne,
  Bool-cases, update, ap, sym, ◌∙◌, subst,
}
use lzmalloc.Config.{max_numa_nodes}
use lzmalloc.Memory.{World}
use lzmalloc.Os.{Os}
use lzmalloc.Vmm.{pop_local, pop_global}
use lzmalloc.Vmm.Alloc.{pop_local-cons, pop_global-cons}
use lzmalloc.Vmm.Cache.{Cache, Holds, NotCached, nexts}
use lzmalloc.Vmm.Extent.{Holds-os}
use lzmalloc.Vmm.Fresh.{cache}
use lzmalloc.Vmm.Threads.{Pc, allocated}
use lzmalloc.Vmm.Threads.Defs.{in_hand, Local}
use lzmalloc.Vmm.Threads.Frame.{Change}

module _ (c : Cache) (mapped : ℕ → Bool) (w : World) (p : Pc) (h : Holds w c)
    (out : (a : ℕ) → in_hand p a ≡ true → NotCached c a) where
  -- the lists stay as they are, and nothing is taken in hand
  pub stay-Change :
      (o : Os) (p' : Pc)
      → Local (record w { os = o }) p'
      → ((a : ℕ) → in_hand p' a ≡ in_hand p a)
      → Change c mapped w p (record w { os = o }) p'
  stay-Change o p' l same = record {
    cached = c;
    holds = Holds-os w c o h;
    local = l;
    mine = λ a m. let m' : in_hand p a ≡ true = sym (same a) ∙ m in (out a m', inl m');
    others = λ a n no_hand m. (n, refl);
    unmapped = λ a m n no_hand. (n, same a ∙ no_hand);
    kept = λ a k n no_hand. (n, sym (same a) ∙ no_hand);
  }

  -- a chunk popped from the list of a node
  pub pop_local-Change :
      (i : ℕ)
      → ((a : ℕ) → in_hand p a ≡ false)
      → i < max_numa_nodes
      → (w.pools i).free_chunks ≢ 0
      → Change c mapped w p (pop_local i w).1 (allocated (pop_local i w).0)
  unfolding pop_local
  pop_local-Change i none_taken lt ne =
      let (r, e) = Chain-ne (nexts w) top (c.local i) (h.local i lt) ne in
      let (same, held, isolated) = pop_local-cons i w c r lt ne e h in
      let iso = isolated ne in
      let here : mem top (c.local i) ≡ true = ground (arith, ap (mem top) e) in
      record {
        cached = record c { local = update c.local i r };
        holds = held;
        local = λ _. (ne, ground (arith, h.home i top lt here), iso.magic);
        mine = λ a m.
            let mine : top ≡ a = ground (arith, m) in
            (
              subst (NotCached (record c { local = update c.local i r })) mine iso.not_cached,
              inr (inl (λ n. ground (arith, n.not_local i lt, here, mine))),
            );
        others = λ a n no_hand m. (smaller i r a e lt n, ground (arith, n.not_local i lt, here));
        unmapped = λ a m n no_hand. (smaller i r a e lt n, ground (arith, n.not_local i lt, here));
        kept = λ a k n no_hand. (
          record {
            not_local = λ j lj. ground (arith, n.not_local j lj, ap (mem a) e, no_hand, ne);
            not_global = n.not_global;
          },
          none_taken a,
        );
      }
    where
      top : ℕ
      top = (w.pools i).free_chunks

      smaller :
          (i : ℕ) (r : List ℕ) (a : ℕ)
          → c.local i ≡ (w.pools i).free_chunks ∷ r
          → i < max_numa_nodes
          → NotCached c a
          → NotCached (record c { local = update c.local i r }) a
      smaller i r a e lt n = record {
        not_local = λ j lj. ground (arith, n.not_local j lj, n.not_local i lt, ap (mem a) e);
        not_global = n.not_global;
      }

  -- a chunk popped from the global list, or none
  pub pop_global-Change :
      (node : ℕ)
      → ((a : ℕ) → in_hand p a ≡ false)
      → node < max_numa_nodes
      → Change c mapped w p (pop_global node w).1 (allocated (pop_global node w).0)
  unfolding pop_global
  pop_global-Change node none_taken lt = elim (Bool-cases (w.global_free_chunks == 0)) [
    | inl e ↦
        rw (e, pop_global)
          (stay-Change w.os (allocated 0) (λ ne. absurd (ne refl))
            (λ a. ground (arith, none_taken a)))
    | inr e ↦
        let ne : top ≢ 0 = ground (arith, e) in
        let (r, q) = Chain-ne (nexts w) top c.global h.global ne in
        let (same, held, isolated) =
          pop_global-cons node w c.local r ne (subst (λ g. Holds w (cache c.local g)) q h) in
        let here : mem top c.global ≡ true = ground (arith, ap (mem top) q) in
        let iso = isolated (λ z. ne (sym same ∙ z)) in
        let off : NotCached (cache c.local r) top =
          subst (NotCached (cache c.local r)) same iso.not_cached in
        record {
          cached = cache c.local r;
          holds = held;
          local = λ _. (iso.not_null, ground (arith, e, lt), iso.magic);
          mine = λ a m.
              let mine : top ≡ a = ground (arith, m, same) in
              (
                subst (NotCached (cache c.local r)) mine off,
                inr (inl (λ n. ground (arith, n.not_global, here, mine))),
              );
          others = λ a n no_hand m. (rest r a q n, ground (arith, n.not_global, here));
          unmapped = λ a m n no_hand. (rest r a q n, ground (arith, n.not_global, here, same));
          kept = λ a k n no_hand. (
            record {
              not_local = n.not_local;
              not_global = ground (arith, n.not_global, ap (mem a) q, no_hand, ne, same);
            },
            none_taken a,
          );
        }
  ]
    where
      rest :
          (r : List ℕ) (a : ℕ)
          → c.global ≡ w.global_free_chunks ∷ r
          → NotCached c a
          → NotCached (cache c.local r) a
      rest r a e n = record {
        not_local = n.not_local;
        not_global = ground (arith, n.not_global, ap (mem a) e);
      }

      top : ℕ
      top = w.global_free_chunks
