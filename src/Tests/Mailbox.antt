-- ===== src/Tests/Mailbox.antt =====
-- Thread 1 frees a block of heap 2, which reaps it while thread 1 frees another.
use lzmalloc.Base.{ℕ, refl, arith, false, inl, [], ◌∷◌}
use lzmalloc.Tlh.Flush.{no_batch}
use lzmalloc.Tlh.Free.{grow}
use lzmalloc.Tlh.Mailbox.{
  System, Step, client, use_block, add, flush, store_tail, exchange, reap, Reach, start, later,
  init, link, swap, take_all, add_block,
}
use lzmalloc.Tlh.Mailbox.Delivery.{IsDelivering, mailboxes_deliver}

record Traced : Type 0 where
  last : System
  reach : Reach last

abbrev then_by : (x : Traced) (i : ℕ) {t : System} → Step i x.last t → Traced
then_by x i {t} step = record { last = t; reach = later {i = i} x.reach step }

abbrev handed_out : Traced
handed_out =
    then_by (record { last = init (λ a. 0); reach = start (λ a. 0) }) 1
      (use_block 4096 7 client tt tt)

abbrev added : Traced
unfolding add_block
added =
    then_by handed_out 1
      (add 2 4096 no_batch [] refl refl (omega arith) (omega arith) (omega arith) (inl refl))

abbrev delivered : Traced
unfolding add_block link swap
delivered =
    let b = grow 4096 (record no_batch { target_tlh = 2 }) in
    let x = then_by added 1 (flush b (4096 ∷ []) refl (omega arith) (omega arith)) in
    let y = then_by x 1 (store_tail b (4096 ∷ []) 0 refl) in
    then_by y 1 (exchange false b (4096 ∷ []) 0 refl)

abbrev received : Traced
unfolding add_block link swap take_all
received = then_by delivered 2 (reap no_batch [] refl)

mailboxes_deliver_example : IsDelivering received.last
unfolding add_block link swap take_all
mailboxes_deliver_example = mailboxes_deliver received.reach
