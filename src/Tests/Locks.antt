-- ===== src/Tests/Locks.antt =====
-- Thread 1 is in the section of pool 3, and thread 2 waits for it.
use lzmalloc.Base.{ℕ, ◌≡◌, ◌⊎◌, refl, update}
use lzmalloc.Vmm.Locks.{
  System, at_pool, in_pool, outside, clear_locks, advance, advanced, pool_lock, Reach, start, later,
  go, want_pool,
}
use lzmalloc.Vmm.Locks.Exclusion.{mutual_exclusion, waiter_can_enter}

record Traced : Type 0 where
  last : System
  reach : Reach last

abbrev waiting : System
waiting = record { locks = clear_locks; pc = update (λ i. outside) 1 (at_pool 3) }

abbrev crowded : Traced
unfolding advance pool_lock
crowded = record {
  last = record {
    locks = (advanced 1 waiting).locks;
    pc = update (advanced 1 waiting).pc 2 (at_pool 3);
  };
  reach =
      later {i = 2} (later {i = 1} (later {i = 1} start (want_pool 3 refl)) go) (want_pool 3 refl);
}

mutual_exclusion_example : ◌≡◌ {A = ℕ} 1 1
unfolding advance pool_lock
mutual_exclusion_example = mutual_exclusion crowded.reach 1 1 refl

waiter_can_enter_example :
    ((advanced 2 crowded.last).pc 2 ≡ in_pool 3)
    ⊎ ((j : ℕ) × (crowded.last.pc j ≡ in_pool 3)
        × ((advanced 2 (advanced j crowded.last)).pc 2 ≡ in_pool 3))
unfolding advance pool_lock
waiter_can_enter_example = waiter_can_enter crowded.reach 2 3 refl
