-- ===== src/Rtree/Race/Linear.antt =====
-- Each step of the interleaved functions is one step of the sequential ones, or none.
use lzmalloc.Base.{
  ℕ, ◌<◌, ◌≡◌, ◌≢◌, ◌⊎◌, refl, arith, Option, none, some, ◌==◌, if◌then◌else◌, update_self, sym,
  ◌∙◌,
}
use lzmalloc.Rtree.{block_num, l1_idx, l2_idx, rtree_get}
use lzmalloc.Rtree.Index.{address_space, l1_idx-l2_idx, same_block}
use lzmalloc.Rtree.Race.{
  Index, Pc, idle, set_called, missing, publishing, storing, found, System, advance, FreshAnswer,
  Step, go, call_set, call_get, return_found, Reach, root_of,
}
use lzmalloc.Rtree.Race.Defs.{set_addr, Inv}
use lzmalloc.Rtree.Race.Shared.{Reach-Inv}

-- What the step of a thread at `pc` makes of a look-up that gave `old`: its store replaces the
-- header of the block, all else leaves it.
abbrev pub effect : Pc → ℕ → ℕ → ℕ
effect (storing chunk_addr metadata leaf) ptr old =
    if block_num chunk_addr == block_num ptr then metadata else old
effect _ ptr old = old

get_of :
    (s : Index) (p : ℕ)
    → rtree_get p (root_of s)
      ≡ (if s.leaves (l1_idx p) == 0 then 0 else s.entries (s.leaves (l1_idx p)) (l2_idx p))
unfolding rtree_get root_of
get_of s p = ground arith

module _ {s : Index} {pc : ℕ → Pc} (inv : Inv s pc) (i : ℕ) (answer : Option ℕ)
    (f : FreshAnswer s answer) where
  open inv use {rooted, distinct, local, zeros, unpublished, apart}

  advance_get :
      (p : ℕ)
      → p < address_space
      → set_addr (pc i) < address_space
      → rtree_get p (root_of (advance answer s (pc i)).0)
        ≡ effect (pc i) p (rtree_get p (root_of s))
  unfolding advance
  advance_get p hp ha = ground (
    arith,
    get_of s p,
    get_of (advance answer s (pc i)).0 p,
    local i,
    f,
    rooted (l1_idx p),
    distinct (l1_idx p) (l1_idx (set_addr (pc i))),
    zeros i (l2_idx p),
    unpublished i (l1_idx p),
    l1_idx-l2_idx (set_addr (pc i)) p ha hp,
    same_block (set_addr (pc i)) p,
  )

-- the call of `lz_rtree_set` that a thread is in
abbrev pub call_of : Pc → Option (ℕ × ℕ)
call_of (set_called chunk_addr metadata) = some (chunk_addr, metadata)
call_of (missing chunk_addr metadata) = some (chunk_addr, metadata)
call_of (publishing chunk_addr metadata new_leaf) = some (chunk_addr, metadata)
call_of (storing chunk_addr metadata leaf) = some (chunk_addr, metadata)
call_of _ = none

-- Threads that run `lz_rtree_set` and `lz_rtree_get` at once change the index as the sequential
-- functions do: in a reachable state a step of a thread changes what a look-up of any address gives
-- exactly when it is the step that stores into a leaf, and then to the header of that call on the
-- addresses of its 2 MB chunk alone. Mapping, publishing or losing the race for a leaf is not seen.
-- The addresses are below `2 ^ 48`.
pub advance_refines :
    {i : ℕ} {s t : System}
    → Reach s
    → Step i s t
    → (p : ℕ) → p < address_space
    → set_addr (s.pc i) < address_space
    → rtree_get p (root_of t.index) ≡ effect (s.pc i) p (rtree_get p (root_of s.index))
advance_refines {i} r (go answer f) p hp ha = advance_get (Reach-Inv r) i answer f p hp ha
advance_refines r (call_set a m e) p hp ha = rw e refl
advance_refines r (call_get q e) p hp ha = rw e refl
advance_refines r (return_found q m e) p hp ha = rw e refl

module _ {s : Index} {pc : ℕ → Pc} (inv : Inv s pc) (i : ℕ) (answer : Option ℕ) where
  open inv use {local}

  advance-idle :
      (a m : ℕ)
      → call_of (pc i) ≡ some (a, m)
      → (advance answer s (pc i)).1 ≡ idle
      → (rtree_get a (root_of (advance answer s (pc i)).0) ≡ m)
        ⊎ ((pc i ≡ missing a m) × ((advance answer s (pc i)).0 ≡ s))
  unfolding advance
  advance-idle a m c e = ground (arith, get_of (advance answer s (pc i)).0 a, local i)

  advance-found :
      (p v : ℕ)
      → pc i ≢ found p v
      → (advance answer s (pc i)).1 ≡ found p v
      → v ≡ rtree_get p (root_of s)
  unfolding advance
  advance-found p v n e = ground (arith, get_of s p, local i)

-- When a call of `lz_rtree_set` returns in a reachable state, a look-up of its address gives its
-- header, whichever threads raced with it; or the call had found no leaf, the system had no page
-- for one, and the index is as it was.
pub set_returns :
    {i : ℕ} {s t : System}
    → Reach s
    → Step i s t
    → (a m : ℕ) → call_of (s.pc i) ≡ some (a, m)
    → t.pc i ≡ idle
    → (rtree_get a (root_of t.index) ≡ m) ⊎ ((s.pc i ≡ missing a m) × (t.index ≡ s.index))
set_returns {i} {s} r (go answer f) a m c e =
    advance-idle (Reach-Inv r) i answer a m c (sym (update_self s.pc i _) ∙ e)
set_returns r (call_set b n q) a m c e = ground (arith, c, q)
set_returns r (call_get b q) a m c e = ground (arith, c, q)
set_returns r (return_found b n q) a m c e = ground (arith, c, q)

-- When a call of `lz_rtree_get` gets its answer in a reachable state, that is the header that the
-- sequential look-up of its address gives in this state.
pub get_returns :
    {i : ℕ} {s t : System}
    → Reach s
    → Step i s t
    → (p v : ℕ) → s.pc i ≢ found p v
    → t.pc i ≡ found p v
    → v ≡ rtree_get p (root_of s.index)
get_returns {i} {s} r (go answer f) p v n e =
    advance-found (Reach-Inv r) i answer p v n (sym (update_self s.pc i _) ∙ e)
get_returns r (call_set b m q) p v n e = ground arith
get_returns r (call_get b q) p v n e = ground arith
get_returns r (return_found b m q) p v n e = ground arith
