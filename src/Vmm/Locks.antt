-- ===== src/Vmm/Locks.antt =====
-- vmm.c: the spin locks of the pools, taken by any number of threads. A step is one atomic access to
-- a flag. A thread holds one lock at a time, as in every function of vmm.c.
pub mod Exclusion
use lzmalloc.Base.{ℕ, ◌≡◌, Bool, true, false, ◌==◌, if◌then◌else◌, update}

-- `g_pool_locks` and `g_global_pool_lock`
pub record Locks : Type 0 where
  pub pool_locks : ℕ → Bool
  pub global_pool_lock : Bool

-- what the lock functions leave, and whether their loop ends: the flag was clear
unfoldable pub pool_lock : ℕ → Locks → Bool × Locks
pool_lock node_id l =
    if l.pool_locks node_id
    then (false, l)
    else (true, record l { pool_locks = update l.pool_locks node_id true })

unfoldable pub pool_unlock : ℕ → Locks → Locks
pool_unlock node_id l = record l { pool_locks = update l.pool_locks node_id false }

unfoldable pub global_pool_lock : Locks → Bool × Locks
global_pool_lock l =
    if l.global_pool_lock then (false, l) else (true, record l { global_pool_lock = true })

unfoldable pub global_pool_unlock : Locks → Locks
global_pool_unlock l = record l { global_pool_lock = false }

-- the flags that `lz_vmm_init` clears
abbrev pub clear_locks : Locks
clear_locks = record { pool_locks = λ node_id. false; global_pool_lock = false }

pub data Pc : Type 0 where
  outside : Pc
  at_pool : (node_id : ℕ) → Pc
  in_pool : (node_id : ℕ) → Pc
  at_global : Pc
  in_global : Pc

-- One step of a thread: an attempt to take the lock that it waits for, or the release of its own.
unfoldable pub advance : Locks → Pc → Locks × Pc
unfolding pool_lock pool_unlock global_pool_lock global_pool_unlock
advance l outside = (l, outside)
advance l (at_pool node_id) =
    let (taken, l') = pool_lock node_id l in
    (l', if taken then in_pool node_id else at_pool node_id)
advance l (in_pool node_id) = (pool_unlock node_id l, outside)
advance l at_global =
    let (taken, l') = global_pool_lock l in (l', if taken then in_global else at_global)
advance l in_global = (global_pool_unlock l, outside)

pub record System : Type 0 where
  pub locks : Locks
  pub pc : ℕ → Pc

abbrev pub advanced : ℕ → System → System
advanced i s = record {
  locks = (advance s.locks (s.pc i)).0;
  pc = update s.pc i (advance s.locks (s.pc i)).1;
}

pub data Step (i : ℕ) (s : System) : System → Type 0 where
  go : Step i s (advanced i s)
  want_pool :
      (node_id : ℕ)
      → s.pc i ≡ outside
      → Step i s (record s { pc = update s.pc i (at_pool node_id) })
  want_global : s.pc i ≡ outside → Step i s (record s { pc = update s.pc i at_global })

pub data Reach : System → Type 0 where
  start : Reach (record { locks = clear_locks; pc = λ i. outside })
  later : {i : ℕ} {s t : System} → Reach s → Step i s t → Reach t
