-- ===== src/Vmm/Free.antt =====
-- `lz_vmm_free_chunk` implements `give` on the stacks of chunks.
use lzmalloc.Base.{
  ℕ, ◌<◌, ◌≡◌, ◌≢◌, inl, inr, refl, arith, subst, List, ◌∷◌, false, not, ◌||◌, mem, Chain,
  Chain-frame, length, update, ltb, ltb→lt, ◌==◌, Bool-cases,
}
use lzmalloc.Chunk.{chunk_magic}
use lzmalloc.Config.{max_numa_nodes, vmm_max_cached_chunks}
use lzmalloc.Memory.{World}
use lzmalloc.Topology.{topology_get_pool, topology_get_pool_self}
use lzmalloc.Vmm.{vmm_free_chunk, push_local, deflate}
use lzmalloc.Vmm.Cache.{Cache, Holds, NotCached, nexts, give}
use lzmalloc.Vmm.Extent.{push_global-Holds, Holds-os}

pub deflate-Holds : (w : World) (c : Cache) (a : ℕ) → Holds w c → Holds (deflate a w) c
unfolding deflate
deflate-Holds w c a h = Holds-os w c _ h

-- a chunk in use: it is off every list, its node exists and its magic number is in place
pub record InUse (w : World) (c : Cache) (chunk : ℕ) : Type 0 where
  pub not_null : chunk ≢ 0
  pub not_cached : NotCached c chunk
  pub node_lt : (w.headers chunk).node_id < max_numa_nodes
  pub magic : (w.headers chunk).magic ≡ chunk_magic

pub push_local-Holds :
    (w : World) (c : Cache) (i a : ℕ)
    → Holds w c
    → InUse w c a
    → (w.headers a).node_id ≡ i
    → length (c.local i) < vmm_max_cached_chunks
    → Holds (push_local i a w) (record c { local = update c.local i (a ∷ c.local i) })
unfolding push_local
push_local-Holds w c i a h u home room = record {
  local = λ j lt. elim (Bool-cases (i == j)) [
    | inl e ↦ rw e (
      refl,
      u.not_null,
      out i i-lt,
      head (frame (w.pools i).free_chunks (c.local i) (h.local i i-lt) (out i i-lt)),
    )
    | inr e ↦ rw e (frame (w.pools j).free_chunks (c.local j) (h.local j lt) (out j lt))
  ];
  counted = λ j lt. elim (Bool-cases (i == j)) [
    | inl e ↦ rw e (omega (arith, h.counted i i-lt))
    | inr e ↦ rw e (h.counted j lt)
  ];
  capped = λ j lt. elim (Bool-cases (i == j)) [ inl e ↦ rw e room | inr e ↦ rw e (h.capped j lt) ];
  global = frame w.global_free_chunks c.global h.global u.not_cached.not_global;
  apart = λ p q b lp lq ne m. ground (arith, h.apart p q b lp lq, out p lp, out q lq);
  apart_global = λ p b lp m. ground (arith, h.apart_global p b lp, u.not_cached.not_global);
  home = λ p b lp m. ground (arith, h.home p b lp, home, u.magic, out p lp);
}
  where
    i-lt : i < max_numa_nodes
    i-lt = subst (λ t. t < max_numa_nodes) home u.node_lt

    out : (j : ℕ) → j < max_numa_nodes → mem a (c.local j) ≡ false
    out = u.not_cached.not_local

    frame :
        (p : ℕ) (xs : List ℕ)
        → Chain (nexts w) p xs
        → mem a xs ≡ false
        → Chain (nexts (push_local i a w)) p xs
    frame p xs ch o = Chain-frame (nexts w) _ p xs ch (λ b m. ground arith)

    head :
        Chain (nexts (push_local i a w)) (w.pools i).free_chunks (c.local i)
        → Chain (nexts (push_local i a w)) (nexts (push_local i a w) a) (c.local i)
    head = subst (λ t. Chain (nexts (push_local i a w)) t (c.local i)) (ground arith)

-- `lz_vmm_free_chunk` of a chunk in use is `give` to the chunk's own node: the chunk goes on the
-- node's list while that holds fewer than 32 chunks, and on the global list otherwise.
pub vmm_free_chunk_refines :
    (w : World) (c : Cache) (chunk : ℕ)
    → Holds w c
    → InUse w c chunk
    → Holds (vmm_free_chunk chunk w) (give (w.headers chunk).node_id chunk c)
unfolding vmm_free_chunk
vmm_free_chunk_refines w c a h u =
    rw (guard, pool, h.counted i u.node_lt)
      (elim (Bool-cases (ltb (length (c.local i)) 32)) [
        | inl room ↦ rw room (push_local-Holds w c i a h u refl (ltb→lt _ _ room))
        | inr full ↦
            rw full
              (push_global-Holds (deflate a w) c a u.not_null (deflate-Holds w c a h) u.not_cached)
      ])
  where
    i : ℕ
    i = (w.headers a).node_id

    pool : topology_get_pool i ≡ i
    pool = topology_get_pool_self i u.node_lt

    guard : (a == 0 || not ((w.headers a).magic == chunk_magic)) ≡ false
    guard = ground (arith, u.not_null, u.magic)
