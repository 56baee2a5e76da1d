-- ===== src/Tlh/Mailbox/Delivery.antt =====
-- Blocks that other threads free reach their heap: none is lost and none comes twice.
use lzmalloc.Base.{
  ℕ, ◌≡◌, ◌↔◌, refl, subst, arith, Bool, true, not, ◌&&◌, List, ◌==◌, mem, update, Chain,
  Bool-cases, inl, inr,
}
use lzmalloc.Memory.{Batch}
use lzmalloc.Tlh.Mailbox.{
  in_batch, in_mailbox, taken, linking, swapping, System, swap, Step, add, flush, store_tail,
  exchange, reap, free_one, use_block, Reach, start, later,
}
use lzmalloc.Tlh.Mailbox.Defs.{batch_of, rest_of, Local, Inv}
use lzmalloc.Tlh.Mailbox.Moves.{
  stay-Inv, link-Inv, deliver-Inv, take_all-Inv, reap_one-Inv, add_block-Inv, use-Inv,
}

exchange-Inv :
    (s : System) (i : ℕ) (spurious : Bool) (b : Batch) (xs : List ℕ) (old : ℕ)
    → Inv s.shared s.pc
    → s.pc i ≡ swapping b xs old
    → Inv (swap spurious b xs old s.shared).0 (update s.pc i (swap spurious b xs old s.shared).1)
unfolding swap
exchange-Inv s i spurious b xs old inv e =
    let here = subst (Local s.shared.nexts) e (inv.local i) in
    elim (Bool-cases (s.shared.heads b.target_tlh == old && not spurious)) [
      | inl q ↦ rw q (deliver-Inv inv i b xs old e (ground (arith, q)))
      | inr q ↦ rw q (
          stay-Inv inv i (linking b xs (s.shared.heads b.target_tlh)) (here.0, here.1) (rw e refl)
            (rw e refl))
    ]

Step-Inv : {i : ℕ} {s t : System} → Inv s.shared s.pc → Step i s t → Inv t.shared t.pc
Step-Inv {i} {s} inv (add owner ptr b xs e place ne some_owner room same) =
    add_block-Inv inv i owner ptr b xs e place ne room
Step-Inv {i} {s} inv (flush b xs e n t) =
    stay-Inv inv i (linking b xs (s.shared.heads b.target_tlh))
      (n, subst (Local s.shared.nexts) e (inv.local i)) (rw e refl) (rw e refl)
Step-Inv {i} {s} inv (store_tail b xs old e) = link-Inv inv i b xs old e
Step-Inv {i} {s} inv (exchange spurious b xs old e) = exchange-Inv s i spurious b xs old inv e
Step-Inv {i} {s} inv (reap b xs e) = take_all-Inv inv i b xs e
Step-Inv {i} {s} inv (free_one junk b xs h ys e) = reap_one-Inv inv i junk b xs h ys e
Step-Inv {i} {s} inv (use_block ptr v p l l') = use-Inv inv i ptr v p l l'

Reach-Inv : {s : System} → Reach s → Inv s.shared s.pc
Reach-Inv (start nexts) = record {
  box = λ t. refl;
  local = λ i. refl;
  boxed = λ t a m. absurd (ground (arith, m));
  batched = λ i a m. absurd (ground (arith, m));
  reaped = λ i a m. absurd (ground (arith, m));
  in_box = λ t a m. absurd (ground (arith, m));
  in_batches = λ i a m. absurd (ground (arith, m));
  in_rests = λ i a m. absurd (ground (arith, m));
}
Reach-Inv (later r step) = Step-Inv (Reach-Inv r) step

-- The mailbox of each heap is a linked list of blocks, and every block is in one place.
pub record IsDelivering (s : System) : Type 0 where
  pub mailbox : (t : ℕ) → Chain s.shared.nexts (s.shared.heads t) (s.shared.boxes t)
  pub waiting : (t a : ℕ) → (mem a (s.shared.boxes t) ≡ true) ↔ (s.shared.place a ≡ in_mailbox t)
  pub collected : (i a : ℕ) → (mem a (batch_of (s.pc i)) ≡ true) ↔ (s.shared.place a ≡ in_batch i)
  pub received : (i a : ℕ) → (mem a (rest_of (s.pc i)) ≡ true) ↔ (s.shared.place a ≡ taken i)

-- However threads that free blocks of other heaps, flush their batches and reap their mailboxes
-- interleave, and whenever an exchange fails: in every reachable state the mailbox of each heap is a
-- linked list that ends in NULL and holds each block once, and a block is in a mailbox, in a batch
-- or with the thread that reaps it exactly when its place says so. A block has one place, so none
-- is lost on its way and none is delivered twice.
pub mailboxes_deliver : {s : System} → Reach s → IsDelivering s
mailboxes_deliver r =
    let inv = Reach-Inv r in
    record {
      mailbox = inv.box;
      waiting = λ t a. (inv.boxed t a, inv.in_box t a);
      collected = λ i a. (inv.batched i a, inv.in_batches i a);
      received = λ i a. (inv.reaped i a, inv.in_rests i a);
    }
