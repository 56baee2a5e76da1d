-- ===== src/Vmm/Fresh.antt =====
-- An empty global list is filled from a fresh mapping.
use lzmalloc.Base.{
  ℕ, ◌+◌, ◌*◌, ◌≤◌, ◌<◌, ◌≡◌, inl, inr, arith, List, [], ◌∷◌, some, true, false, ◌==◌,
  if◌then◌else◌, Option-cases,
}
use lzmalloc.Config.{huge_page_size, extent_chunks}
use lzmalloc.Memory.{World}
use lzmalloc.Os.{Os, next_mmap}
use lzmalloc.Vmm.{sys_alloc_extent, push_chunks, extent_request}
use lzmalloc.Vmm.Cache.{Cache, Holds, NotCached, extent, refill, round_up}
use lzmalloc.Vmm.Extent.{push_chunks-Holds, Holds-os}
use lzmalloc.Vmm.Trim.{trim_extent_addr}
use lzmalloc.Word.{word_mod}

-- What `mmap` promises of a mapping at `raw`: it is not at NULL, it ends below the top of the
-- address space, and none of it is in use, so no cached chunk starts in it.
pub record IsFresh (c : Cache) (raw : ℕ) : Type 0 where
  pub not_null : 0 < raw
  pub fits : raw + extent_request ≤ word_mod
  pub unused : (p : ℕ) → raw ≤ p → p < raw + extent_request → NotCached c p

-- the mapping that the next `mmap` answers is fresh
abbrev pub MapsFresh : World → Cache → Type 0
MapsFresh w c = (raw : ℕ) → next_mmap w.os ≡ some raw → IsFresh c raw

module _ (w : World) (c : Cache) where
  -- the chunks of a fresh mapping, pushed on an empty list
  push_chunks-fresh :
      (raw base : ℕ) (o : Os)
      → base ≡ round_up raw
      → IsFresh (record c { global = [] }) raw
      → Holds w (record c { global = [] })
      → Holds
          (push_chunks extent_chunks 0 base (record w { os = o }))
          (record c { global = extent extent_chunks 0 (round_up raw) [] })
  push_chunks-fresh raw base o e f h = rw e (
      push_chunks-Holds extent_chunks 0 (round_up raw) (record w { os = o })
        (record c { global = [] }) (omega (arith, f.not_null)) (omega (arith, f.fits))
        (Holds-os w (record c { global = [] }) o h)
        (λ k lo hi. f.unused (round_up raw + k * huge_page_size) (omega arith) (omega arith)))

  sys_alloc_extent-Holds :
      Holds w (record c { global = [] })
      → MapsFresh w (record c { global = [] })
      → Holds (sys_alloc_extent w) (record c { global = refill (next_mmap w.os) [] })
  unfolding sys_alloc_extent
  sys_alloc_extent-Holds h fresh = elim (Option-cases (next_mmap w.os)) [
    | inl e ↦ rw (e, sys_alloc_extent) (Holds-os w (record c { global = [] }) _ h)
    | inr (raw, e) ↦
        let f = fresh raw e in
        rw (e, sys_alloc_extent)
          (push_chunks-fresh raw _ _ (trim_extent_addr raw _ (omega (arith, f.fits))) f h)
  ]

abbrev pub cache : (ℕ → List ℕ) → List ℕ → Cache
cache l g = record { local = l; global = g }

-- the stacks after a refill, whatever was in the global one
pub refill-Holds :
    (w : World) (l : ℕ → List ℕ) (g : List ℕ)
    → Holds w (cache l g)
    → MapsFresh w (cache l g)
    → Holds
        (if w.global_free_chunks == 0 then sys_alloc_extent w else w)
        (cache l (refill (next_mmap w.os) g))
refill-Holds w l [] h fresh =
    let null : (w.global_free_chunks == 0) ≡ true = ground (arith, h.global) in
    rw null (sys_alloc_extent-Holds w (cache l []) h fresh)
refill-Holds w l (x ∷ g) h fresh =
    let some_left : (w.global_free_chunks == 0) ≡ false = ground (arith, h.global) in rw some_left h
