-- ===== src/Vmm/Threads/Extend.antt =====
-- A new extent comes into the hand of the thread that mapped it.
use lzmalloc.Base.{
  ◌∙◌, ℕ, ◌+◌, ◌≤◌, ◌<◌, ◌≡◌, inl, inr, refl, arith, Bool, true, false, Option, none, some,
  Option-cases, sym, subst,
}
use lzmalloc.Config.{max_numa_nodes, extent_size}
use lzmalloc.Memory.{World}
use lzmalloc.Os.{sys_mmap_answer, Os, next_mmap, sys_mmap, sys_call, madvise_hugepage}
use lzmalloc.Word.{word_mod}
use lzmalloc.Vmm.{extent_request, trim_extent}
use lzmalloc.Vmm.Cache.{Cache, Holds, NotCached, round_up}
use lzmalloc.Vmm.Extent.{Holds-os}
use lzmalloc.Vmm.Trim.{trim_extent_addr}
use lzmalloc.Vmm.Threads.{
  extending, pushing, refilled, in_extent, map_extent, extended, advance, IsNew,
}
use lzmalloc.Vmm.Threads.Frame.{Change}
use lzmalloc.Vmm.Threads.Sections.{stay-Change}

map_extent-none :
    (w : World)
    → next_mmap w.os ≡ none
    → map_extent w ≡ (none, record w { os = (sys_mmap extent_request w.os).1 })
unfolding map_extent
map_extent-none w e = rw (sys_mmap_answer extent_request w.os ∙ e, map_extent) refl

map_extent-some :
    (w : World) (raw : ℕ)
    → next_mmap w.os ≡ some raw
    → raw + extent_request ≤ word_mod
    → (base : ℕ) × (o : Os) × (map_extent w ≡ (some base, record w { os = o }))
      × (base ≡ round_up raw)
unfolding map_extent
map_extent-some w raw e fits =
    let o : Os = (sys_mmap extent_request w.os).1 in
    let (base, o') = trim_extent raw o in
    (
      base,
      sys_call (madvise_hugepage base extent_size) o',
      rw (sys_mmap_answer extent_request w.os ∙ e, map_extent) refl,
      trim_extent_addr raw o (omega (arith, fits)),
    )

module _ (c : Cache) (mapped : ℕ → Bool) (w : World) (h : Holds w c)
    (unmapped : (a : ℕ) → mapped a ≡ false → NotCached c a) where
  -- the aligned part of a new mapping
  mapped-Change :
      (node raw base : ℕ) (o : Os)
      → node < max_numa_nodes
      → base ≡ round_up raw
      → IsNew mapped raw
      → Change c mapped w (extending node) (record w { os = o }) (pushing node base)
  mapped-Change node raw base o lt e new = record {
    cached = c;
    holds = Holds-os w c o h;
    local = (lt, omega (arith, e, new.not_null), omega (arith, e, new.fits), omega (arith, e));
    mine = λ a m. let u = fresh a m in (unmapped a u, inr (inr u));
    others = λ a n no_hand m. (n, refl);
    unmapped = λ a m n no_hand. (n, ground (arith, m));
    kept = λ a k n no_hand. (n, refl);
  }
    where
      fresh : (a : ℕ) → in_extent base a ≡ true → mapped a ≡ false
      fresh a m = new.unmapped a (ground (arith, m, e)) (ground (arith, m, e))

  pub extend-Change :
      (node : ℕ)
      → node < max_numa_nodes
      → ((raw : ℕ) → next_mmap w.os ≡ some raw → IsNew mapped raw)
      → Change c mapped w
          (extending node)
          (advance w (extending node)).0
          (advance w (extending node)).1
  unfolding advance
  extend-Change node lt new = elim (Option-cases (next_mmap w.os)) [
    | inl e ↦
        subst
          (λ (t : Option ℕ × World).
            Change c mapped w (extending node) (extended node t).0 (extended node t).1)
          (sym (map_extent-none w e))
          (stay-Change c mapped w (extending node) h (λ a m. ground (arith, m))
            (sys_mmap extent_request w.os).1 (refilled node) lt (λ a. refl))
    | inr (raw, e) ↦
        let n = new raw e in
        let (base, o, q, r) = map_extent-some w raw e (omega (arith, n.fits)) in
        subst
          (λ (t : Option ℕ × World).
            Change c mapped w (extending node) (extended node t).0 (extended node t).1)
          (sym q) (mapped-Change node raw base o lt r n)
  ]
