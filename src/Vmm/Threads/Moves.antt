-- ===== src/Vmm/Threads/Moves.antt =====
-- Each step of a thread inside the functions is a change that keeps the invariant.
use lzmalloc.Base.{
  ℕ, List, ◌∷◌, mem, Chain, ◌+◌, ◌<◌, ◌≡◌, inl, inr, refl, arith, Bool, true, false, ◌==◌, some,
  ltb, sym, Bool-cases, [], ==_iff, length, if◌then◌else◌, ◌∙◌, ltb→lt, ==_of_ne,
}
use lzmalloc.Config.{max_numa_nodes, vmm_max_cached_chunks}
use lzmalloc.Memory.{World}
use lzmalloc.Os.{Os, next_mmap, sys_getcpu}
use lzmalloc.Topology.{
  get_current_node, get_current_node-lt, get_current_node_world, topology_get_pool_self,
}
use lzmalloc.Vmm.{pop_local}
use lzmalloc.Vmm.Cache.{Cache, Holds, NotCached, nexts}
use lzmalloc.Vmm.Extent.{Holds-os}
use lzmalloc.Vmm.Threads.{
  Pc, idle, alloc_called, node_empty, extending, pushing, refilled, allocated, free_called,
  spilling, purging, draining, advance, IsNew,
}
use lzmalloc.Vmm.Threads.Defs.{in_hand, Local}
use lzmalloc.Vmm.Threads.Extend.{extend-Change}
use lzmalloc.Vmm.Threads.Frame.{Change}
use lzmalloc.Vmm.Threads.Pushes.{
  push_global-Change, push_local-Change, push_chunks-Change, purge-Change, drain-Change,
}
use lzmalloc.Vmm.Threads.Sections.{stay-Change, pop_local-Change, pop_global-Change}

-- a change does not depend on the operating system's side
rebase :
    {c : Cache} {mapped : ℕ → Bool} {w w' : World} {o : Os} {p p' : Pc}
    → Change c mapped (record w { os = o }) p w' p'
    → Change c mapped w p w' p'
rebase x = record {
  cached = x.cached;
  holds = x.holds;
  local = x.local;
  mine = x.mine;
  others = x.others;
  unmapped = x.unmapped;
  kept = x.kept;
}

module _ (c : Cache) (mapped : ℕ → Bool) (w : World) (h : Holds w c)
    (unmapped : (a : ℕ) → mapped a ≡ false → NotCached c a)
    (new : (raw : ℕ) → next_mmap w.os ≡ some raw → IsNew mapped raw) where
  -- the section that pops the list of the node, for a thread on `node`
  pop_node-Change :
      (node : ℕ) (o : Os)
      → node < max_numa_nodes
      → let next : World × Pc =
          (if (w.pools node).free_chunks == 0 then (record w { os = o }, node_empty node) else (
            (pop_local node (record w { os = o })).1,
            allocated (pop_local node (record w { os = o })).0,
          )) in
        Change c mapped w alloc_called next.0 next.1
  pop_node-Change node o lt = elim (Bool-cases ((w.pools node).free_chunks == 0)) [
    | inl e ↦ rw e (
        stay-Change c mapped w alloc_called h (λ a m. ground (arith, m)) o (node_empty node) lt
          (λ a. refl))
    | inr e ↦ rw e (
        rebase (
          pop_local-Change c mapped (record w { os = o }) alloc_called (Holds-os w c o h)
            (λ a m. ground (arith, m)) node (λ a. refl) lt (ground (arith, e))))
  ]

  -- a drained list that starts at NULL is empty
  nothing_left :
      (chunk : ℕ) (left : List ℕ)
      → Chain (nexts w) chunk left
      → chunk ≡ 0
      → (a : ℕ) → mem a left ≡ false
  nothing_left chunk [] ch e a = refl
  nothing_left chunk (x ∷ left) ch e a = absurd (ch.1 (sym ch.0 ∙ e))

  pub advance-Change :
      (p : Pc)
      → Local w p
      → ((a : ℕ) → in_hand p a ≡ true → NotCached c a)
      → Change c mapped w p (advance w p).0 (advance w p).1
  unfolding advance sys_getcpu
  advance-Change idle l out = stay-Change c mapped w idle h out w.os idle tt (λ a. refl)
  advance-Change alloc_called l out =
      let lt = get_current_node-lt w in
      rw (get_current_node_world w, topology_get_pool_self (get_current_node w).0 lt)
        (pop_node-Change (get_current_node w).0 (sys_getcpu w.os).1 lt)
  advance-Change (node_empty node) l out = elim (Bool-cases (w.global_free_chunks == 0)) [
    | inl e ↦
        rw e (stay-Change c mapped w (node_empty node) h out w.os (extending node) l (λ a. refl))
    | inr e ↦ rw e (pop_global-Change c mapped w (node_empty node) h out node (λ a. refl) l)
  ]
  advance-Change (extending node) l out = extend-Change c mapped w h unmapped node l new
  advance-Change (pushing node base) (lt, pos, fits, aligned) out =
      push_chunks-Change c mapped w (pushing node base) h out node base (λ a. refl) lt pos fits
        aligned
  advance-Change (refilled node) l out =
      pop_global-Change c mapped w (refilled node) h out node (λ a. refl) l
  advance-Change (allocated chunk) l out =
      stay-Change c mapped w (allocated chunk) h out w.os (allocated chunk) l (λ a. refl)
  advance-Change (free_called chunk) l out =
      rw
        (
          ==_of_ne chunk 0 l.0,
          l.2,
          topology_get_pool_self (w.headers chunk).node_id l.1,
          h.counted (w.headers chunk).node_id l.1,
        )
        (elim (Bool-cases
          (ltb (length (c.local (w.headers chunk).node_id)) vmm_max_cached_chunks)) [
            | inl e ↦ rw e (
                push_local-Change c mapped w (free_called chunk) h out chunk (λ a. refl) l
                  (ltb→lt _ _ e))
            | inr e ↦ rw e (
                stay-Change c mapped w (free_called chunk) h out w.os (spilling chunk) l
                  (λ a. refl))
          ])
  advance-Change (spilling chunk) l out =
      push_global-Change c mapped w (spilling chunk) h out chunk idle l.0 (ground arith) tt
        (λ a m. ground (arith, m)) (λ a m. ground (arith, m))
  advance-Change (purging node) l out = elim (Bool-cases (ltb node max_numa_nodes)) [
    | inl e ↦
        let lt = ltb→lt node max_numa_nodes e in
        rw (e, topology_get_pool_self node lt) (purge-Change c mapped w h node lt)
    | inr e ↦ rw e (stay-Change c mapped w (purging node) h out w.os idle tt (λ a. refl))
  ]
  advance-Change (draining node chunk left) l out = elim (Bool-cases (chunk == 0)) [
    | inl e ↦ rw e (
        stay-Change c mapped w (draining node chunk left) h out w.os (purging (node + 1)) tt
          (λ a. sym (nothing_left chunk left l ((==_iff chunk 0).0 e) a)))
    | inr e ↦ rw e (drain-Change c mapped w h node chunk left out l (ground (arith, e)))
  ]
