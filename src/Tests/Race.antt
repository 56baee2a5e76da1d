-- ===== src/Tests/Race.antt =====
-- Two threads that store headers of chunks under one missing leaf at the same time.
use lzmalloc.Base.{ℕ, ◌+◌, ◌≡◌, ◌^◌, ◌⊎◌, refl, arith, Option, none, some, update}
use lzmalloc.Rtree.{rtree_get, block_num, l1_idx, l2_idx}
use lzmalloc.Rtree.Race.{
  idle, set_called, missing, get_called, found, System, advance, FreshAnswer, go, call_set,
  call_get, Reach, start, later, init, root_of,
}
use lzmalloc.Rtree.Race.Defs.{own_leaf}
use lzmalloc.Rtree.Race.Linear.{advance_refines, set_returns, get_returns}
use lzmalloc.Rtree.Race.Leaks.{no_leaf_leaks}
use lzmalloc.Rtree.Race.Progress.{Exec, here, own, other, wait_free}

record Traced : Type 0 where
  last : System
  reach : Reach last

abbrev goes : System → ℕ → Option ℕ → System
goes s i answer = record {
  index = (advance answer s.index (s.pc i)).0;
  pc = update s.pc i (advance answer s.index (s.pc i)).1;
}

abbrev called : Traced
called = record {
  last = record {
    index = init.index;
    pc = update (update init.pc 1 (set_called (2 ^ 21) 700)) 2 (set_called (2 ^ 22) 900);
  };
  reach =
      later {i = 2} (later {i = 1} start (call_set (2 ^ 21) 700 refl)) (call_set (2 ^ 22) 900 refl);
}

abbrev turn : (x : Traced) (i : ℕ) (answer : Option ℕ) → FreshAnswer x.last.index answer → Traced
turn x i answer f = record {
  last = goes x.last i answer;
  reach = later {i = i} x.reach (go answer f);
}

-- both find no leaf and map one; thread 2 publishes first
abbrev both_mapped : Traced
unfolding advance
both_mapped =
    turn (turn (turn (turn called 1 none tt) 2 none tt) 1 (some 4096) (omega arith, refl)) 2
      (some 8192) (omega arith, refl)

abbrev lost : Traced
lost = turn (turn both_mapped 2 none tt) 1 none tt

abbrev stored : Traced
stored = turn lost 1 none tt

advance_refines_example : rtree_get (2 ^ 21 + 5) (root_of stored.last.index) ≡ 700
unfolding advance rtree_get l1_idx l2_idx root_of block_num
advance_refines_example =
    advance_refines {i = 1} lost.reach (go none tt) (2 ^ 21 + 5) (omega arith) (omega arith)

set_returns_example :
    (rtree_get (2 ^ 21) (root_of stored.last.index) ≡ 700)
    ⊎ ((lost.last.pc 1 ≡ missing (2 ^ 21) 700) × (stored.last.index ≡ lost.last.index))
unfolding advance l1_idx
set_returns_example = set_returns {i = 1} lost.reach (go none tt) (2 ^ 21) 700 refl refl

-- thread 3 looks up the first chunk
abbrev asked : Traced
unfolding advance l1_idx
asked = record {
  last = record { index = stored.last.index; pc = update stored.last.pc 3 (get_called (2 ^ 21)) };
  reach = later {i = 3} stored.reach (call_get (2 ^ 21) refl);
}

abbrev reading_entry : Traced
reading_entry = turn asked 3 none tt

get_returns_example : 700 ≡ rtree_get (2 ^ 21) (root_of reading_entry.last.index)
unfolding advance l1_idx l2_idx
get_returns_example =
    get_returns {i = 3} reading_entry.reach (go none tt) (2 ^ 21) 700 (λ e. ground (arith, e)) refl

stored_no_own : (i : ℕ) → own_leaf (stored.last.pc i) ≡ 0
unfolding advance l1_idx
stored_no_own i = ground arith

no_leaf_leaks_example :
    (l1 : ℕ) × (stored.last.index.leaves l1 ≡ 8192)
    × ((k : ℕ) → stored.last.index.leaves k ≡ 8192 → k ≡ l1)
unfolding advance l1_idx
no_leaf_leaks_example = no_leaf_leaks stored.reach stored_no_own 8192 refl

abbrev alone : System
alone = goes (goes (goes (goes (goes called.last 1 none) 1 (some 4096)) 2 none) 1 none) 1 none

alone-Exec : Exec 1 called.last 4 alone
unfolding advance
alone-Exec =
    own none
      (own none
        (other {j = 2} (own (some 4096) (own none here tt) (omega arith, refl)) (omega arith)
          (go none tt))
        tt)
      tt

wait_free_example : (alone.pc 1 ≡ idle) ⊎ ((ptr m : ℕ) × (alone.pc 1 ≡ found ptr m))
unfolding advance
wait_free_example = wait_free alone-Exec (omega arith)
