-- ===== src/Vmm/Threads/Conserved.antt =====
-- No chunk gets lost between the lists, the threads and the clients.
use lzmalloc.Base.{
  ℕ, ◌%◌, ◌≡◌, inl, inr, refl, arith, true, false, not, ◌&&◌, ◌||◌, ◌==◌, [], Bool-cases, update,
}
use lzmalloc.Config.{huge_page_size}
use lzmalloc.Vmm.Cache.{Cache, Holds, NotCached}
use lzmalloc.Vmm.Threads.{
  Pc, idle, alloc_called, allocated, free_called, purging, now_mapped, advance, System, advanced,
  Step, go, call_alloc, return_alloc, call_free, call_purge, Reach, start, later,
}
use lzmalloc.Vmm.Threads.Defs.{in_hand, IsLive, Inv}
use lzmalloc.Vmm.Threads.Frame.{Change, Change-Inv, Change-kept}
use lzmalloc.Vmm.Threads.Moves.{advance-Change}
use lzmalloc.Vmm.Threads.Safety.{start-Inv, call-Inv, return-Inv, free-Inv}

-- a mapped chunk that is on no list and with no thread is with a client
abbrev Kept : Cache → System → Type 0
Kept c s =
    (a : ℕ)
    → s.mapped a ≡ true
    → a % huge_page_size ≡ 0
    → NotCached c a
    → ((i : ℕ) → in_hand (s.pc i) a ≡ false)
    → s.in_use a ≡ true

module _ {c : Cache} {s : System} (inv : Inv c s) (kept : Kept c s) (i : ℕ) where
  go-Kept :
      (x : Change c s.mapped s.world
        (s.pc i)
        (advance s.world (s.pc i)).0
        (advance s.world (s.pc i)).1)
      → Kept x.cached (advanced i s)
  go-Kept x a m k out no_hand =
      let p' : Pc = (advance s.world (s.pc i)).1 in
      let (out', none_before) = Change-kept inv i _ p' x a k out no_hand in
      kept a (was_mapped p' (no_mine p' a no_hand) m) k out' none_before
    where
      no_mine :
          (p' : Pc) (a : ℕ)
          → ((j : ℕ) → in_hand (update s.pc i p' j) a ≡ false)
          → in_hand p' a ≡ false
      no_mine p' a h = ground (arith, h i)

      was_mapped :
          {a : ℕ} (p' : Pc)
          → in_hand p' a ≡ false
          → now_mapped p' s.mapped a ≡ true
          → s.mapped a ≡ true
      was_mapped p' n m = ground arith

  call-Kept : (p : Pc) → s.pc i ≡ idle → Kept c (record s { pc = update s.pc i p })
  call-Kept p e a m k out no_hand = kept a m k out (λ j. ground (arith, no_hand j, e))

  return-Kept :
      (chunk : ℕ)
      → s.pc i ≡ allocated chunk
      → Kept c (record s {
        pc = update s.pc i idle;
        in_use = λ a. not (chunk == 0) && chunk == a || s.in_use a;
      })
  return-Kept chunk e a m k out no_hand = elim (Bool-cases (not (chunk == 0) && chunk == a)) [
    | inl this ↦ rw this refl
    | inr other ↦ rw other (kept a m k out (λ j. ground (arith, no_hand j, e, other)))
  ]

  free-Kept :
      (chunk : ℕ)
      → s.pc i ≡ idle
      → Kept c (record s {
        pc = update s.pc i (free_called chunk);
        in_use = update s.in_use chunk false;
      })
  free-Kept chunk e a m k out no_hand =
      let other : (chunk == a) ≡ false = ground (arith, no_hand i) in
      rw other (kept a m k out (λ j. ground (arith, no_hand j, e)))

Step-Kept :
    {i : ℕ} {s t : System} {c : Cache}
    → Inv c s
    → Kept c s
    → Step i s t
    → (c' : Cache) × Inv c' t × Kept c' t
Step-Kept {i} {s} {t} {c} inv kept (go new) =
    let x =
      advance-Change c s.mapped s.world inv.holds (λ a m. (inv.unmapped a m).0) new (s.pc i)
        (inv.local i) (λ a h. (inv.hand i a h).0) in
    (x.cached, Change-Inv inv i _ _ x, go-Kept inv kept i x)
Step-Kept {i} {c = c} inv kept (call_alloc e) =
    (c, call-Inv inv i alloc_called (λ a. refl) tt, call-Kept inv kept i alloc_called e)
Step-Kept {i} {c = c} inv kept (call_purge e) =
    (c, call-Inv inv i (purging 0) (λ a. refl) tt, call-Kept inv kept i (purging 0) e)
Step-Kept {i} {c = c} inv kept (return_alloc chunk e) =
    (c, return-Inv inv i chunk e, return-Kept inv kept i chunk e)
Step-Kept {i} {c = c} inv kept (call_free chunk e u) =
    (c, free-Inv inv i chunk e u, free-Kept inv kept i chunk e)

Reach-Kept : {s : System} → Reach s → (c : Cache) × Inv c s × Kept c s
Reach-Kept {s} (start z) = (
  record { local = λ i. []; global = [] },
  start-Inv s z,
  λ a m k out no_hand. absurd (ground (arith, m, z.none_mapped a)),
)
Reach-Kept (later r step) = let (c, inv, kept) = Reach-Kept r in Step-Kept inv kept step

-- Where each chunk of a state is.
pub record IsConserved (s : System) : Type 0 where
  pub lists : Cache
  pub holds : Holds s.world lists
  pub used : (a : ℕ) → s.in_use a ≡ true → NotCached lists a × IsLive s.world a
  pub kept :
      (a : ℕ)
      → s.mapped a ≡ true
      → a % huge_page_size ≡ 0
      → NotCached lists a
      → ((i : ℕ) → in_hand (s.pc i) a ≡ false)
      → s.in_use a ≡ true

-- In every reachable state the lists of the pools are well formed: they are linked lists that end
-- in NULL and share no chunk, each node's list is as long as its count and holds at most 32
-- chunks, all of that node. No chunk leaks: each chunk of 2 MB that the system has mapped, that is
-- on none of these lists and that no thread has on its way, is in use by a client. And a chunk in
-- use is on no list and has its magic number and a node that exists.
pub no_chunk_lost : {s : System} → Reach s → IsConserved s
no_chunk_lost r =
    let (c, inv, kept) = Reach-Kept r in
    record { lists = c; holds = inv.holds; used = inv.used; kept = kept }
