-- ===== src/Rtree/Race/Shared.antt =====
-- Each step of a thread keeps the invariant.
use lzmalloc.Base.{ℕ, ◌<◌, ◌≡◌, ◌≢◌, refl, arith, true, Option, update}
use lzmalloc.Rtree.{l1_idx}
use lzmalloc.Rtree.Race.{
  Index, Pc, idle, set_called, storing, get_called, System, advance, FreshAnswer, go, call_set,
  call_get, return_found, Reach, start, later,
}
use lzmalloc.Rtree.Race.Defs.{own_leaf, Local, Inv}

-- the entry of the root whose leaf a thread stores into
abbrev target : Pc → ℕ
target (storing a m leaf) = l1_idx a
target _ = 0

module _ {s : Index} {pc : ℕ → Pc} (inv : Inv s pc) (i : ℕ) (answer : Option ℕ)
    (f : FreshAnswer s answer) where
  open inv use {rooted, distinct, local, zeros, unpublished, apart}

  advance-rooted :
      (l1 : ℕ)
      → 0 < (advance answer s (pc i)).0.leaves l1
      → (advance answer s (pc i)).0.mapped ((advance answer s (pc i)).0.leaves l1) ≡ true
  unfolding advance
  advance-rooted l1 h = ground (arith, local i, unpublished i l1, rooted l1, f)

  advance-distinct :
      (k l : ℕ)
      → 0 < (advance answer s (pc i)).0.leaves k
      → (advance answer s (pc i)).0.leaves k ≡ (advance answer s (pc i)).0.leaves l
      → k ≡ l
  unfolding advance
  advance-distinct k l h e = ground (arith, local i, unpublished i k, unpublished i l, distinct k l)

  advance-Local :
      (j : ℕ) → Local (advance answer s (pc i)).0 (update pc i (advance answer s (pc i)).1 j)
  unfolding advance
  advance-Local j = ground (arith, local i, local j, f, apart i j)

  advance-zeros :
      (j l2 : ℕ)
      → 0 < own_leaf (update pc i (advance answer s (pc i)).1 j)
      → (advance answer s (pc i)).0.entries
          (own_leaf (update pc i (advance answer s (pc i)).1 j))
          l2
        ≡ 0
  unfolding advance
  advance-zeros j l2 h =
      ground (arith, local i, local j, f, zeros j l2, unpublished j (target (pc i)))

  advance-unpublished :
      (j l1 : ℕ)
      → 0 < own_leaf (update pc i (advance answer s (pc i)).1 j)
      → (advance answer s (pc i)).0.leaves l1 ≢ own_leaf (update pc i (advance answer s (pc i)).1 j)
  unfolding advance
  advance-unpublished j l1 h =
      ground (arith, local i, local j, f, rooted l1, unpublished j l1, apart i j)

  advance-apart :
      (j k : ℕ)
      → 0 < own_leaf (update pc i (advance answer s (pc i)).1 j)
      → own_leaf (update pc i (advance answer s (pc i)).1 j)
        ≡ own_leaf (update pc i (advance answer s (pc i)).1 k)
      → j ≡ k
  unfolding advance
  advance-apart j k h e = ground (arith, local i, local j, local k, f, apart j k)

  pub advance-Inv : Inv (advance answer s (pc i)).0 (update pc i (advance answer s (pc i)).1)
  advance-Inv = record {
    rooted = advance-rooted;
    distinct = advance-distinct;
    local = advance-Local;
    zeros = advance-zeros;
    unpublished = advance-unpublished;
    apart = advance-apart;
  }

-- A call or a return leaves the index as it is and takes no leaf.
module _ {s : Index} {pc : ℕ → Pc} (inv : Inv s pc) (i : ℕ) (p : Pc) where
  open inv use {rooted, distinct, local, zeros, unpublished, apart}

  quiet-Inv : own_leaf p ≡ 0 → Local s p → Inv s (update pc i p)
  quiet-Inv e l = record {
    rooted = rooted;
    distinct = distinct;
    local = λ j. ground (arith, local j);
    zeros = λ j l2 h. ground (arith, zeros j l2);
    unpublished = λ j l1 h. ground (arith, unpublished j l1);
    apart = λ j k h q. ground (arith, apart j k);
  }

pub Reach-Inv : {s : System} → Reach s → Inv s.index s.pc
Reach-Inv start = record {
  rooted = λ l1 h. absurd (omega arith);
  distinct = λ k l h e. absurd (omega arith);
  local = λ i. tt;
  zeros = λ i l2 h. refl;
  unpublished = λ i l1 h. absurd (omega arith);
  apart = λ i j h e. absurd (omega arith);
}
Reach-Inv (later {i} r (go answer f)) = advance-Inv (Reach-Inv r) i answer f
Reach-Inv (later {i} r (call_set a m e)) = quiet-Inv (Reach-Inv r) i (set_called a m) refl tt
Reach-Inv (later {i} r (call_get p e)) = quiet-Inv (Reach-Inv r) i (get_called p) refl tt
Reach-Inv (later {i} r (return_found p m e)) = quiet-Inv (Reach-Inv r) i idle refl tt
