-- ===== src/Vmm/Extent.antt =====
-- Pushing chunks on the global list.
use lzmalloc.Base.{
  ℕ, zero, suc, ◌+◌, ◌*◌, ◌≤◌, ◌<◌, ◌≡◌, ◌≢◌, refl, arith, ◌∷◌, Chain-frame, ==_of_ne, Chain, subst,
}
use lzmalloc.Config.{huge_page_size}
use lzmalloc.Memory.{World}
use lzmalloc.Os.{Os}
use lzmalloc.Word.{word_mod, add64}
use lzmalloc.Vmm.{push_global, push_chunks}
use lzmalloc.Vmm.Cache.{Cache, Holds, NotCached, extent, nexts}

-- pushing a chunk that is on no list
pub push_global-Holds :
    (w : World) (c : Cache) (a : ℕ)
    → a ≢ 0
    → Holds w c
    → NotCached c a
    → Holds (push_global a w) (record c { global = a ∷ c.global })
unfolding push_global
push_global-Holds w c a ne h out = record {
  local = λ i lt.
      Chain-frame _ _ _ (c.local i) (h.local i lt) (λ b m. ground (arith, out.not_local i lt));
  counted = h.counted;
  capped = h.capped;
  global = (
    refl,
    ne,
    out.not_global,
    subst (λ t. Chain (nexts (push_global a w)) t c.global) head
        (Chain-frame (nexts w) _ w.global_free_chunks c.global h.global
          (λ b m. ground (arith, out.not_global))),
  );
  apart = h.apart;
  apart_global = λ i b lt m. ground (arith, h.apart_global i b lt m, out.not_local i lt);
  home = λ i b lt m. ground (arith, h.home i b lt m, out.not_local i lt);
}
  where
    head : w.global_free_chunks ≡ nexts (push_global a w) a
    head = ground arith

-- the loop of `sys_alloc_extent` pushes the chunks of the extent in turn
pub push_chunks-Holds :
    (left i base : ℕ) (w : World) (c : Cache)
    → 0 < base
    → base + (i + left) * huge_page_size ≤ word_mod
    → Holds w c
    → ((k : ℕ) → i ≤ k → k < i + left → NotCached c (base + k * huge_page_size))
    → Holds (push_chunks left i base w) (record c { global = extent left i base c.global })
unfolding push_chunks extent
push_chunks-Holds zero i base w c pos fits h new = h
push_chunks-Holds (suc left) i base w c pos fits h new = rw addr (
    push_chunks-Holds left (i + 1) base (push_global a w) (record c { global = a ∷ c.global }) pos
      (omega arith) (push_global-Holds w c a (omega arith) h (new i (omega arith) (omega arith)))
      later)
  where
    a : ℕ
    a = base + i * huge_page_size

    addr : add64 base (i * huge_page_size) ≡ a
    addr = omega arith

    later :
        (k : ℕ)
        → i + 1 ≤ k
        → k < i + 1 + left
        → NotCached (record c { global = a ∷ c.global }) (base + k * huge_page_size)
    later k lo hi =
        let n = new k (omega arith) (omega arith) in
        let ne : base + k * huge_page_size ≢ a = omega arith in
        record { not_local = n.not_local; not_global = rw (==_of_ne _ _ ne) n.not_global }

-- the lists do not depend on the operating system
pub Holds-os : (w : World) (c : Cache) (o : Os) → Holds w c → Holds (record w { os = o }) c
Holds-os w c o h = record {
  local = h.local;
  counted = h.counted;
  capped = h.capped;
  global = h.global;
  apart = h.apart;
  apart_global = h.apart_global;
  home = h.home;
}
