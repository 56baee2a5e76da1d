-- ===== src/Rtree/Race/Leaks.antt =====
-- Leaves of threads that lose the race go back to the system, and no thread waits for another.
use lzmalloc.Base.{
  ℕ, ◌<◌, ◌≡◌, ◌⊎◌, inl, inr, refl, arith, true, false, Option, ◌==◌, update, sym, ◌∙◌, Bool-cases,
  ==_iff,
}
use lzmalloc.Rtree.{l1_idx}
use lzmalloc.Rtree.Race.{
  Index, Pc, idle, set_called, get_called, System, advance, FreshAnswer, go, call_set, call_get,
  return_found, Reach, start, later,
}
use lzmalloc.Rtree.Race.Defs.{own_leaf, set_addr}
use lzmalloc.Rtree.Race.Shared.{Reach-Inv}

-- a mapped leaf is one of the root or is about to be published
abbrev Owned : Index → (ℕ → Pc) → ℕ → Type 0
Owned s pc x =
    ((l1 : ℕ) × (s.leaves l1 ≡ x) × (0 < x)) ⊎ ((j : ℕ) × (own_leaf (pc j) ≡ x) × (0 < x))

module _ (s : Index) (pc : ℕ → Pc) (i : ℕ) (answer : Option ℕ) (f : FreshAnswer s answer) where
  abbrev next : Index
  next = (advance answer s (pc i)).0

  abbrev next_pc : ℕ → Pc
  next_pc = update pc i (advance answer s (pc i)).1

  advance-root : (l1 x : ℕ) → s.leaves l1 ≡ x → 0 < x → next.leaves l1 ≡ x
  unfolding advance
  advance-root l1 x e h = ground arith

  advance-mapped :
      (x : ℕ) → next.mapped x ≡ true → s.mapped x ≡ false → (own_leaf (next_pc i) ≡ x) × (0 < x)
  unfolding advance
  advance-mapped x h e = ground (arith, f)

  advance-own :
      (x : ℕ)
      → next.mapped x ≡ true
      → own_leaf (pc i) ≡ x
      → 0 < x
      → next.leaves (l1_idx (set_addr (pc i))) ≡ x
  unfolding advance
  advance-own x h e lt = ground (arith, f)

  advance-Owned :
      (x : ℕ) → (s.mapped x ≡ true → Owned s pc x) → next.mapped x ≡ true → Owned next next_pc x
  advance-Owned x o h = elim (Bool-cases (s.mapped x)) [
    | inr e ↦ let (q, lt) = advance-mapped x h e in inr (i, q, lt)
    | inl e ↦ elim (o e) [
      | inl (l1, q, lt) ↦ inl (l1, advance-root l1 x q lt, lt)
      | inr (j, q, lt) ↦ elim (Bool-cases (i == j)) [
        | inl same ↦
            inl (l1_idx (set_addr (pc i)), advance-own x h (rw ((==_iff i j).0 same) q) lt, lt)
        | inr other ↦ inr (j, rw other q, lt)
      ]
    ]
  ]

quiet-Owned :
    (s : Index) (pc : ℕ → Pc) (i : ℕ) (p : Pc) (x : ℕ)
    → own_leaf (pc i) ≡ 0
    → Owned s pc x
    → Owned s (update pc i p) x
quiet-Owned s pc i p x e (inl (l1, q, lt)) = inl (l1, q, lt)
quiet-Owned s pc i p x e (inr (j, q, lt)) = inr (j, ground arith, lt)

Reach-Owned : {s : System} → Reach s → (x : ℕ) → s.index.mapped x ≡ true → Owned s.index s.pc x
Reach-Owned start x h = ground arith
Reach-Owned (later {i} {s} r (go answer f)) x h =
    advance-Owned s.index s.pc i answer f x (Reach-Owned r x) h
Reach-Owned (later {i} {s} r (call_set a m e)) x h =
    quiet-Owned s.index s.pc i (set_called a m) x (rw e refl) (Reach-Owned r x h)
Reach-Owned (later {i} {s} r (call_get p e)) x h =
    quiet-Owned s.index s.pc i (get_called p) x (rw e refl) (Reach-Owned r x h)
Reach-Owned (later {i} {s} r (return_found p m e)) x h =
    quiet-Owned s.index s.pc i idle x (rw e refl) (Reach-Owned r x h)

-- No leaf leaks: in a reachable state in which no thread is about to publish a leaf, every leaf
-- that is mapped is in the root, at one index only. So a thread that loses the race has unmapped
-- its own.
pub no_leaf_leaks :
    {s : System}
    → Reach s
    → ((i : ℕ) → own_leaf (s.pc i) ≡ 0)
    → (x : ℕ) → s.index.mapped x ≡ true
    → (l1 : ℕ) × (s.index.leaves l1 ≡ x) × ((k : ℕ) → s.index.leaves k ≡ x → k ≡ l1)
no_leaf_leaks r none_own x h = elim (Reach-Owned r x h) [
  | inl (l1, e, lt) ↦ (l1, e, λ k q. (Reach-Inv r).distinct k l1 (ground arith) (q ∙ sym e))
  | inr (j, e, lt) ↦ absurd (omega (arith, none_own j))
]
