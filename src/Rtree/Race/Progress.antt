-- ===== src/Rtree/Race/Progress.antt =====
-- No thread waits for another: a call ends after a bounded number of the thread's own steps.
use lzmalloc.Base.{
  ℕ, suc, ◌-◌, ◌≤◌, ◌≡◌, ◌≢◌, ◌⊎◌, inl, inr, refl, arith, Option, update, update_self, update_ne,
  sym,
}
use lzmalloc.Rtree.Race.{
  Index, Pc, idle, set_called, missing, publishing, storing, get_called, reading, found, System,
  advance, FreshAnswer, Step, go, call_set, call_get, return_found,
}

-- Each call takes a bounded number of the thread's own steps.
unfoldable pub steps_left : Pc → ℕ
steps_left idle = 0
steps_left (set_called a m) = 4
steps_left (missing a m) = 3
steps_left (publishing a m leaf) = 2
steps_left (storing a m leaf) = 1
steps_left (get_called p) = 2
steps_left (reading p leaf) = 1
steps_left (found p m) = 0

-- `turns` steps of thread `i` in one call, among any steps of the other threads
pub data Exec (i : ℕ) (s : System) : ℕ → System → Type 0 where
  here : Exec i s 0 s
  own :
      {turns : ℕ} {t : System} (answer : Option ℕ)
      → Exec i s turns t
      → FreshAnswer t.index answer
      → Exec i s (suc turns) (record {
        index = (advance answer t.index (t.pc i)).0;
        pc = update t.pc i (advance answer t.index (t.pc i)).1;
      })
  other : {j turns : ℕ} {t u : System} → Exec i s turns t → i ≢ j → Step j t u → Exec i s turns u

advance-steps_left :
    (answer : Option ℕ) (s : Index) (p : Pc) → steps_left (advance answer s p).1 ≤ steps_left p - 1
unfolding advance steps_left
advance-steps_left answer s p = ground arith

Step-other : {i j : ℕ} {s t : System} → i ≢ j → Step j s t → t.pc i ≡ s.pc i
Step-other {i} {j} {s} n (go answer f) = update_ne s.pc j i _ (λ e. n (sym e))
Step-other {i} {j} {s} n (call_set a m e) = update_ne s.pc j i _ (λ e. n (sym e))
Step-other {i} {j} {s} n (call_get p e) = update_ne s.pc j i _ (λ e. n (sym e))
Step-other {i} {j} {s} n (return_found p m e) = update_ne s.pc j i _ (λ e. n (sym e))

Exec-steps_left :
    {i : ℕ} {s : System} {n : ℕ} {t : System}
    → Exec i s n t
    → steps_left (t.pc i) ≤ steps_left (s.pc i) - n
Exec-steps_left here = omega arith
Exec-steps_left {i} (own {t} answer x f) =
    rw (update_self t.pc i (advance answer t.index (t.pc i)).1)
      (omega (arith, Exec-steps_left x, advance-steps_left answer t.index (t.pc i)))
Exec-steps_left (other x n st) = rw (Step-other n st) (Exec-steps_left x)

steps_left-le : (p : Pc) → steps_left p ≤ 4
unfolding steps_left
steps_left-le p = ground arith

steps_left_zero : (p : Pc) → steps_left p ≡ 0 → (p ≡ idle) ⊎ ((ptr m : ℕ) × (p ≡ found ptr m))
unfolding steps_left
steps_left_zero idle h = inl refl
steps_left_zero (found ptr m) h = inr (ptr, m, refl)
steps_left_zero (set_called a m) h = absurd (omega arith)
steps_left_zero (missing a m) h = absurd (omega arith)
steps_left_zero (publishing a m leaf) h = absurd (omega arith)
steps_left_zero (storing a m leaf) h = absurd (omega arith)
steps_left_zero (get_called ptr) h = absurd (omega arith)
steps_left_zero (reading ptr leaf) h = absurd (omega arith)

-- `lz_rtree_set` and `lz_rtree_get` are wait-free: after four steps of its own a thread has
-- returned from its store or has the answer of its look-up, whatever steps the other threads take
-- in between and whatever the system answers.
pub wait_free :
    {i n : ℕ} {s t : System}
    → Exec i s n t
    → 4 ≤ n
    → (t.pc i ≡ idle) ⊎ ((ptr m : ℕ) × (t.pc i ≡ found ptr m))
wait_free {i} {n} {s} {t} x h =
    steps_left_zero (t.pc i) (omega (arith, Exec-steps_left x, steps_left-le (s.pc i)))
