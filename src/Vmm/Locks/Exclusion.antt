-- ===== src/Vmm/Locks/Exclusion.antt =====
-- A lock has one holder, and the holder can always give it to a thread that waits.
use lzmalloc.Base.{ℕ, ◌≡◌, ◌⊎◌, inl, inr, refl, arith, Bool, true, false, ◌==◌, update, Bool-cases}
use lzmalloc.Vmm.Locks.{
  Locks, pool_lock, pool_unlock, global_pool_lock, global_pool_unlock, Pc, outside, at_pool,
  in_pool, at_global, in_global, advance, System, advanced, go, want_pool, want_global, Reach,
  start, later,
}

-- a thread is in the section of the same lock as another
abbrev pub holds_pool : Pc → ℕ → Bool
holds_pool (in_pool node_id) n = node_id == n
holds_pool _ n = false

abbrev pub holds_global : Pc → Bool
holds_global in_global = true
holds_global _ = false

record Inv (l : Locks) (pc : ℕ → Pc) : Type 0 where
  pool_set : (i n : ℕ) → holds_pool (pc i) n ≡ true → l.pool_locks n ≡ true
  global_set : (i : ℕ) → holds_global (pc i) ≡ true → l.global_pool_lock ≡ true
  pool_one : (i j n : ℕ) → holds_pool (pc i) n ≡ true → holds_pool (pc j) n ≡ true → i ≡ j
  global_one : (i j : ℕ) → holds_global (pc i) ≡ true → holds_global (pc j) ≡ true → i ≡ j
  pool_held : (n : ℕ) → l.pool_locks n ≡ true → (i : ℕ) × (holds_pool (pc i) n ≡ true)
  global_held : l.global_pool_lock ≡ true → (i : ℕ) × (holds_global (pc i) ≡ true)

module _ {s : System} (inv : Inv s.locks s.pc) (i : ℕ) where
  open inv use {pool_set, global_set, pool_one, global_one, pool_held, global_held}

  go-Inv : Inv (advanced i s).locks (advanced i s).pc
  unfolding advance pool_lock pool_unlock global_pool_lock global_pool_unlock
  go-Inv = record {
    pool_set = λ j n h. ground (arith, pool_set j n, pool_set i n, pool_one i j n);
    global_set = λ j h. ground (arith, global_set j, global_set i, global_one i j);
    pool_one = λ j k n h h'. ground (arith, pool_one j k n, pool_set j n, pool_set k n);
    global_one = λ j k h h'. ground (arith, global_one j k, global_set j, global_set k);
    pool_held = λ n m. elim (Bool-cases (s.locks.pool_locks n)) [
      | inl e ↦ let (k, h) = pool_held n e in (k, ground (arith, m, e, h))
      | inr e ↦ (i, ground (arith, m, e))
    ];
    global_held = λ m. elim (Bool-cases s.locks.global_pool_lock) [
      | inl e ↦ let (k, h) = global_held e in (k, ground (arith, m, e, h))
      | inr e ↦ (i, ground (arith, m, e))
    ];
  }

  -- a thread comes to a lock
  want-Inv :
      (p : Pc)
      → s.pc i ≡ outside
      → ((n : ℕ) → holds_pool p n ≡ false)
      → holds_global p ≡ false
      → Inv s.locks (update s.pc i p)
  want-Inv p e no_pool no_global = record {
    pool_set = λ j n h. ground (arith, pool_set j n, no_pool n);
    global_set = λ j h. ground (arith, global_set j);
    pool_one = λ j k n h h'. ground (arith, pool_one j k n, no_pool n);
    global_one = λ j k h h'. ground (arith, global_one j k);
    pool_held = λ n m. let (k, h) = pool_held n m in (k, ground (arith, h, e));
    global_held = λ m. let (k, h) = global_held m in (k, ground (arith, h, e));
  }

Reach-Inv : {s : System} → Reach s → Inv s.locks s.pc
Reach-Inv start = record {
  pool_set = λ i n h. absurd (ground (arith, h));
  global_set = λ i h. absurd (ground (arith, h));
  pool_one = λ i j n h h'. absurd (ground (arith, h));
  global_one = λ i j h h'. absurd (ground (arith, h));
  pool_held = λ n m. absurd (ground (arith, m));
  global_held = λ m. absurd (ground (arith, m));
}
Reach-Inv (later {i} r go) = go-Inv (Reach-Inv r) i
Reach-Inv (later {i} r (want_pool n e)) = want-Inv (Reach-Inv r) i (at_pool n) e (λ m. refl) refl
Reach-Inv (later {i} r (want_global e)) = want-Inv (Reach-Inv r) i at_global e (λ m. refl) refl

module _ (s : System) (i : ℕ) where
  enters :
      (n : ℕ) → s.pc i ≡ at_pool n → s.locks.pool_locks n ≡ false → (advanced i s).pc i ≡ in_pool n
  unfolding advance pool_lock
  enters n e free = ground (arith, e, free)

  released : (n : ℕ) → s.pc i ≡ in_pool n → (advanced i s).locks.pool_locks n ≡ false
  unfolding advance pool_unlock
  released n e = ground (arith, e)

  still : (j n : ℕ) → s.pc i ≡ at_pool n → s.pc j ≡ in_pool n → (advanced j s).pc i ≡ at_pool n
  still j n e there = ground (arith, e, there)

-- the pool whose lock a thread holds, if it holds one
abbrev pool_of : Pc → ℕ
pool_of (in_pool node_id) = node_id
pool_of _ = 0

-- both are in a section under the same lock
abbrev pub shares_lock : Pc → Pc → Bool
shares_lock (in_pool node_id) q = holds_pool q node_id
shares_lock in_global q = holds_global q
shares_lock _ q = false

-- The sections of one pool exclude each other, and so do those of the global list: in a reachable
-- state two threads that are in sections under the same lock are one thread.
pub mutual_exclusion :
    {s : System} → Reach s → (i j : ℕ) → shares_lock (s.pc i) (s.pc j) ≡ true → i ≡ j
mutual_exclusion {s} r i j h =
    let inv = Reach-Inv r in
    ground (arith, h, inv.pool_one i j (pool_of (s.pc i)), inv.global_one i j)

-- The lock of a pool never blocks for good: in a reachable state in which a thread waits for the
-- lock, its next step takes it, or some thread holds the lock and two steps are enough, the holder's
-- next one, which leaves the section, and then the waiting thread's. Whether the waiting thread has
-- that turn, or another one takes the lock before it, is up to the scheduler.
pub waiter_can_enter :
    {s : System}
    → Reach s
    → (i n : ℕ) → s.pc i ≡ at_pool n
    → ((advanced i s).pc i ≡ in_pool n)
      ⊎ ((j : ℕ) × (s.pc j ≡ in_pool n) × ((advanced i (advanced j s)).pc i ≡ in_pool n))
waiter_can_enter {s} r i n e = elim (Bool-cases (s.locks.pool_locks n)) [
  | inr free ↦ inl (enters s i n e free)
  | inl taken ↦
      let (j, h) = (Reach-Inv r).pool_held n taken in
      let there : s.pc j ≡ in_pool n = ground (arith, h) in
      inr (j, there, enters (advanced j s) i n (still s i j n e there) (released s j n there))
]
