-- ===== src/Vmm/Threads/Safety.antt =====
-- What the threads keep, whichever way their sections interleave.
use lzmalloc.Base.{
  ℕ, ◌≡◌, ◌≢◌, inl, inr, refl, arith, true, false, not, ◌&&◌, ◌||◌, ◌==◌, Bool-cases, [], ==_iff,
  update, subst,
}
use lzmalloc.Vmm.Cache.{Cache, Holds, NotCached}
use lzmalloc.Vmm.Threads.{
  Pc, idle, alloc_called, allocated, free_called, purging, System, Step, go, call_alloc,
  return_alloc, call_free, call_purge, IsStart, Reach, start, later,
}
use lzmalloc.Vmm.Threads.Defs.{in_hand, IsLive, Local, Inv}
use lzmalloc.Vmm.Threads.Frame.{Change-Inv}
use lzmalloc.Vmm.Threads.Moves.{advance-Change}

pub start-Inv : (s : System) → IsStart s → Inv (record { local = λ i. []; global = [] }) s
start-Inv s z = record {
  holds = record {
    local = λ i lt. (z.no_local i lt).0;
    counted = λ i lt. (z.no_local i lt).1;
    capped = λ i lt. omega arith;
    global = z.no_global;
    apart = λ i j a hi hj ne m. refl;
    apart_global = λ i a hi m. refl;
    home = λ i a hi m. absurd (ground (arith, m));
  };
  local = λ i. rw (z.idle i) tt;
  hand = λ i a h. absurd (ground (arith, h, z.idle i));
  apart = λ i j a h h'. absurd (ground (arith, h, z.idle i));
  used = λ a u. absurd (ground (arith, u, z.none_in_use a));
  unmapped = λ a m. (
    record { not_local = λ i lt. refl; not_global = refl },
    z.none_in_use a,
    λ i. ground (arith, z.idle i),
  );
}

module _ {c : Cache} {s : System} (inv : Inv c s) (i : ℕ) where
  open inv use {holds, local, hand, apart, used, unmapped}

  -- a call that takes nothing in hand
  pub call-Inv :
      (p : Pc)
      → ((a : ℕ) → in_hand p a ≡ false)
      → Local s.world p
      → Inv c (record s { pc = update s.pc i p })
  call-Inv p none_taken l = record {
    holds = holds;
    local = λ j. ground (arith, local j, l);
    hand = λ j a h. ground (arith, h, hand j a, none_taken a);
    apart = λ j k a h h'. ground (arith, h, h', apart j k a, none_taken a);
    used = used;
    unmapped = λ a m.
        let (out, unused, no_hand) = unmapped a m in
        (out, unused, λ j. ground (arith, none_taken a, no_hand j));
  }

  -- a chunk in hand goes to the client
  pub return-Inv :
      (chunk : ℕ)
      → s.pc i ≡ allocated chunk
      → Inv c (record s {
        pc = update s.pc i idle;
        in_use = λ a. not (chunk == 0) && chunk == a || s.in_use a;
      })
  return-Inv chunk e = record {
    holds = holds;
    local = λ j. ground (arith, local j);
    hand = λ j a h. ground (arith, h, hand j a, e, apart i j a, hand i a);
    apart = λ j k a h h'. ground (arith, h, h', apart j k a);
    used = λ a u. elim (Bool-cases (not (chunk == 0) && chunk == a)) [
      | inr other ↦ used a (ground (arith, u, other))
      | inl this ↦
          let same : chunk ≡ a = ground (arith, this) in
          let ne : chunk ≢ 0 = ground (arith, this) in
          (
            (hand i a (rw e this)).0,
            subst (IsLive s.world) same (subst (Local s.world) e (local i) ne),
          )
    ];
    unmapped = λ a m.
        let (out, unused, no_hand) = unmapped a m in
        (out, ground (arith, unused, no_hand i, e), λ j. ground (arith, no_hand j));
  }

  -- the client gives a chunk back
  pub free-Inv :
      (chunk : ℕ)
      → s.pc i ≡ idle
      → s.in_use chunk ≡ true
      → Inv c (record s {
        pc = update s.pc i (free_called chunk);
        in_use = update s.in_use chunk false;
      })
  free-Inv chunk e u = record {
    holds = holds;
    local = λ j. ground (arith, local j, used chunk u);
    hand = λ j a h. elim (Bool-cases (i == j)) [
      | inl this ↦
          let mine : (chunk == a) ≡ true = rw this at h in
          (subst (NotCached c) ((==_iff chunk a).0 mine) (used chunk u).0, rw mine refl)
      | inr other ↦
          let theirs : in_hand (s.pc j) a ≡ true = rw other at h in
          ((hand j a theirs).0, ground (arith, (hand j a theirs).1))
    ];
    apart = λ j k a h h'. ground (arith, h, h', apart j k a, hand j chunk, hand k chunk, u);
    used = λ a v. used a (ground (arith, v));
    unmapped = λ a m.
        let (out, unused, no_hand) = unmapped a m in
        (out, ground (arith, unused), λ j. ground (arith, no_hand j, u, unused));
  }

Step-Inv : {i : ℕ} {s t : System} {c : Cache} → Inv c s → Step i s t → (c' : Cache) × Inv c' t
Step-Inv {i} {s} {t} {c} inv (go new) =
    let x =
      advance-Change c s.mapped s.world inv.holds (λ a m. (inv.unmapped a m).0) new (s.pc i)
        (inv.local i) (λ a h. (inv.hand i a h).0) in
    (x.cached, Change-Inv inv i _ _ x)
Step-Inv {i} {c = c} inv (call_alloc e) = (c, call-Inv inv i alloc_called (λ a. refl) tt)
Step-Inv {i} {c = c} inv (call_purge e) = (c, call-Inv inv i (purging 0) (λ a. refl) tt)
Step-Inv {i} {c = c} inv (return_alloc chunk e) = (c, return-Inv inv i chunk e)
Step-Inv {i} {c = c} inv (call_free chunk e u) = (c, free-Inv inv i chunk e u)

Reach-Inv : {s : System} → Reach s → (c : Cache) × Inv c s
Reach-Inv {s} (start z) = (record { local = λ i. []; global = [] }, start-Inv s z)
Reach-Inv (later r step) = let (c, inv) = Reach-Inv r in Step-Inv inv step

-- However threads that allocate, free and purge interleave, no chunk is handed out twice: when
-- `lz_vmm_alloc_chunk` is about to return a chunk in a reachable state, no client has it, no other
-- thread holds it on its way to or from a list, it is on none of the lists, and its header has the
-- magic number and a node that exists. Clients give back only what is in use, and `mmap` answers
-- memory that is not mapped.
pub no_chunk_twice :
    {s : System}
    → Reach s
    → (i chunk : ℕ) → s.pc i ≡ allocated chunk
    → chunk ≢ 0
    → (s.in_use chunk ≡ false)
      × ((j : ℕ) → i ≢ j → in_hand (s.pc j) chunk ≡ false)
      × ((c : Cache) × Holds s.world c × NotCached c chunk)
      × IsLive s.world chunk
no_chunk_twice {s} r i chunk e ne =
    let (c, inv) = Reach-Inv r in
    let mine : in_hand (s.pc i) chunk ≡ true = rw e (ground arith) in
    (
      (inv.hand i chunk mine).1,
      λ j other. ground (arith, inv.apart i j chunk mine, other),
      (c, inv.holds, (inv.hand i chunk mine).0),
      subst (Local s.world) e (inv.local i) ne,
    )
