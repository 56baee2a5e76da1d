-- ===== src/Tlh/Mailbox/Moves.antt =====
-- Each step of a thread keeps the lists.
use lzmalloc.Base.{
  mem-append, ℕ, ◌<◌, ◌≡◌, ◌≢◌, refl, sym, subst, ap, ◌∙◌, arith, true, false, List, [], ◌∷◌, ◌++◌,
  ◌==◌, mem, update, Chain, Chain-frame, ==_of_ne, Bool-cases, inl, inr, ==_iff, update_ne,
  update_self,
}
use lzmalloc.Config.{batch_max_size}
use lzmalloc.Memory.{Batch}
use lzmalloc.Tlh.Flush.{Segment, Segment-join, no_batch}
use lzmalloc.Tlh.Free.{grow}
use lzmalloc.Tlh.Mailbox.{
  Place, client, in_batch, in_mailbox, taken, Shared, Pc, outside, linking, swapping, reaping,
  move_to, link, take_all, reap_one, add_block, IsLoose,
}
use lzmalloc.Tlh.Mailbox.Defs.{
  batch_of, rest_of, IsBatch, IsBatch-tail, Local, Inv, Segment-frame, Local-frame, IsBatch-relink,
}

grow-IsBatch :
    (f : ℕ → ℕ) (owner ptr : ℕ) (b : Batch) (xs : List ℕ)
    → IsBatch f b xs
    → mem ptr xs ≡ false
    → ptr ≢ 0
    → b.count < batch_max_size
    → IsBatch (update f ptr b.head) (grow ptr (record b { target_tlh = owner })) (ptr ∷ xs)
unfolding Segment
grow-IsBatch f owner ptr b [] l out ne room = (omega (arith, room), (refl, ground (arith, l), ne))
grow-IsBatch f owner ptr b (x ∷ xs) (n, s) out ne room =
    let new : ℕ → ℕ = update f ptr b.head in
    let rest : Segment new b.head b.tail (x ∷ xs) =
      Segment-frame f new b.head b.tail (x ∷ xs) s
        (λ a m. update_ne f ptr a b.head (λ z. ground (arith, out, m, z))) in
    (
      omega (arith, room),
      rw (==_of_ne b.count 0 n) (
        refl,
        ne,
        out,
        subst (λ t. Segment new t b.tail (x ∷ xs)) (sym (update_self f ptr b.head)) rest,
      ),
    )

module _ {s : Shared} {pc : ℕ → Pc} (inv : Inv s pc) where
  open inv use {box, local, boxed, batched, reaped, in_box, in_batches, in_rests}

  -- a store to the link of a block leaves the lists that do not have it
  keep-Local :
      (p v j : ℕ) → s.place p ≢ in_batch j → s.place p ≢ taken j → Local (update s.nexts p v) (pc j)
  keep-Local p v j nb nt =
      Local-frame s.nexts (update s.nexts p v) (pc j)
        (λ a m. update_ne s.nexts p a v (λ e. nb (ap s.place e ∙ batched j a m)))
        (λ a m. update_ne s.nexts p a v (λ e. nt (ap s.place e ∙ reaped j a m))) (local j)

  keep-box :
      (p v t : ℕ) → s.place p ≢ in_mailbox t → Chain (update s.nexts p v) (s.heads t) (s.boxes t)
  keep-box p v t n =
      Chain-frame s.nexts (update s.nexts p v) (s.heads t) (s.boxes t) (box t)
        (λ a m. update_ne s.nexts p a v (λ e. n (ap s.place e ∙ boxed t a m)))

module _ {s : Shared} {pc : ℕ → Pc} (inv : Inv s pc) (i : ℕ) where
  open inv use {box, local, boxed, batched, reaped, in_box, in_batches, in_rests}

  -- the same lists, with the thread elsewhere
  pub stay-Inv :
      (p : Pc)
      → Local s.nexts p
      → batch_of p ≡ batch_of (pc i)
      → rest_of p ≡ rest_of (pc i)
      → Inv s (update pc i p)
  stay-Inv p l eb er = record {
    box = box;
    local = λ j. ground (arith, l, local j);
    boxed = boxed;
    batched = λ j a m. batched j a (ground (arith, m, ap (mem a) eb));
    reaped = λ j a m. reaped j a (ground (arith, m, ap (mem a) er));
    in_box = in_box;
    in_batches = λ j a m. ground (arith, in_batches j a m, ap (mem a) eb);
    in_rests = λ j a m. ground (arith, in_rests j a m, ap (mem a) er);
  }

  -- the store to the last block of the thread's batch
  pub link-Inv :
      (b : Batch) (xs : List ℕ) (old : ℕ)
      → pc i ≡ linking b xs old
      → Inv (link b old s) (update pc i (swapping b xs old))
  unfolding link
  link-Inv b xs old e = record {
    box = λ t. keep-box inv b.tail old t (λ q. ground (arith, q, mine));
    local = λ j. elim (Bool-cases (i == j)) [
      | inl same ↦
          rw same (here.0, IsBatch-relink s.nexts b old xs here.1, update_self s.nexts b.tail old)
      | inr other ↦ rw other (
          keep-Local inv b.tail old j (λ q. ground (arith, q, mine, other))
            (λ q. ground (arith, q, mine)))
    ];
    boxed = boxed;
    batched = λ j a m. batched j a (ground (arith, m, e));
    reaped = λ j a m. reaped j a (ground (arith, m, e));
    in_box = in_box;
    in_batches = λ j a m. ground (arith, in_batches j a m, e);
    in_rests = λ j a m. ground (arith, in_rests j a m, e);
  }
    where
      here : (b.count ≢ 0) × IsBatch s.nexts b xs
      here = subst (Local s.nexts) e (local i)

      mine : s.place b.tail ≡ in_batch i
      mine = batched i b.tail (rw e (IsBatch-tail s.nexts b xs here.0 here.1))

  -- the exchange that puts the batch in front of the mailbox
  pub deliver-Inv :
      (b : Batch) (xs : List ℕ) (old : ℕ)
      → pc i ≡ swapping b xs old
      → s.heads b.target_tlh ≡ old
      → Inv
          (record s {
            heads = update s.heads b.target_tlh b.head;
            boxes = update s.boxes b.target_tlh (xs ++ s.boxes b.target_tlh);
            place = move_to (in_mailbox b.target_tlh) xs s.place;
          })
          (update pc i (outside no_batch []))
  deliver-Inv b xs old e fresh = record {
    box = λ u. elim (Bool-cases (t == u)) [ inl q ↦ rw q joined | inr q ↦ rw q (box u) ];
    local = λ j. ground (arith, local j);
    boxed = λ u a m. ground (arith, m, boxed u a, mem-append a xs (s.boxes t), mine a);
    batched = λ j a m. ground (arith, m, batched j a, mine a);
    reaped = λ j a m. ground (arith, m, reaped j a, mine a, e);
    in_box = λ u a m. ground (arith, m, in_box u a, mem-append a xs (s.boxes t));
    in_batches = λ j a m. ground (arith, m, in_batches j a, mine' a);
    in_rests = λ j a m. ground (arith, m, in_rests j a, e);
  }
    where
      t : ℕ
      t = b.target_tlh

      here : (b.count ≢ 0) × IsBatch s.nexts b xs × (s.nexts b.tail ≡ old)
      here = subst (Local s.nexts) e (local i)

      mine : (a : ℕ) → mem a xs ≡ true → s.place a ≡ in_batch i
      mine a m = batched i a (rw e m)

      mine' : (a : ℕ) → s.place a ≡ in_batch i → mem a xs ≡ true
      mine' a q = rw e at (in_batches i a q)

      segment :
          (xs : List ℕ) → b.count ≢ 0 → IsBatch s.nexts b xs → Segment s.nexts b.head b.tail xs
      segment [] n l = absurd (n l)
      segment (x ∷ xs) n l = l.1

      apart : (a : ℕ) → mem a xs ≡ true → mem a (s.boxes t) ≡ false
      apart a m = elim (Bool-cases (mem a (s.boxes t))) [
        | inr q ↦ q
        | inl q ↦ absurd (ground (arith, mine a m, boxed t a q))
      ]

      same : (a : ℕ) → s.nexts a ≡ update s.nexts b.tail old a
      same a = elim (Bool-cases (b.tail == a)) [
        | inr q ↦ rw q refl
        | inl q ↦ rw q (ap s.nexts (sym ((==_iff b.tail a).0 q)) ∙ here.2)
      ]

      joined : Chain s.nexts b.head (xs ++ s.boxes t)
      joined =
          Chain-frame (update s.nexts b.tail old) s.nexts b.head (xs ++ s.boxes t)
            (Segment-join s.nexts b.head b.tail old xs (s.boxes t) (segment xs here.0 here.1)
              (subst (λ h. Chain s.nexts h (s.boxes t)) fresh (box t)) (λ a m. apart a m))
            (λ a m. same a)

  -- the exchange that takes the mailbox
  pub take_all-Inv :
      (b : Batch) (xs : List ℕ)
      → pc i ≡ outside b xs
      → Inv (take_all i b xs s).0 (update pc i (take_all i b xs s).1)
  unfolding take_all
  take_all-Inv b xs e = record {
    box = λ u. elim (Bool-cases (i == u)) [ inl q ↦ rw q refl | inr q ↦ rw q (box u) ];
    local = λ j. elim (Bool-cases (i == j)) [
      | inl q ↦ rw q (subst (Local s.nexts) e (local i), box i)
      | inr q ↦ rw q (local j)
    ];
    boxed = λ u a m. ground (arith, m, boxed u a, boxed i a);
    batched = λ j a m. ground (arith, m, batched j a, boxed i a, e);
    reaped = λ j a m. ground (arith, m, reaped j a, boxed i a);
    in_box = λ u a m. ground (arith, m, in_box u a);
    in_batches = λ j a m. ground (arith, m, in_batches j a, e);
    in_rests = λ j a m. ground (arith, m, in_rests j a, e);
  }

  -- the thread frees the first block that it has taken
  pub reap_one-Inv :
      (junk : ℕ) (b : Batch) (xs : List ℕ) (head : ℕ) (rest : List ℕ)
      → pc i ≡ reaping b xs head rest
      → Inv (reap_one junk b xs head rest s).0 (update pc i (reap_one junk b xs head rest s).1)
  unfolding reap_one
  reap_one-Inv junk b xs head [] e =
      rw (ap (λ t. t == 0) here.1) (stay-Inv (outside b xs) here.0 (rw e refl) (rw e refl))
    where
      here : IsBatch s.nexts b xs × (head ≡ 0)
      here = subst (Local s.nexts) e (local i)
  reap_one-Inv junk b xs head (y ∷ ys) e = rw (==_of_ne head 0 ne) (record {
    box = λ t. keep-box inv head junk t (λ q. ground (arith, q, mine));
    local = λ j. elim (Bool-cases (i == j)) [
      | inl q ↦ rw q (
        Local-frame s.nexts (update s.nexts head junk) (outside b xs)
            (λ a m.
              update_ne s.nexts head a junk (λ z. ground (arith, mine, z, batched i a (rw e m))))
            (λ a m. ground (arith, m)) here.0,
        Chain-frame s.nexts (update s.nexts head junk) (s.nexts head) ys left
            (λ a m. update_ne s.nexts head a junk (λ z. ground (arith, z, apart, m))),
      )
      | inr q ↦ rw q (
          keep-Local inv head junk j (λ z. ground (arith, z, mine))
            (λ z. ground (arith, z, mine, q)))
    ];
    boxed = λ u a m. ground (arith, boxed u a m, mine);
    batched = λ j a m. ground (arith, m, batched j a, mine, e);
    reaped = λ j a m. ground (arith, m, reaped j a, mine, e, apart);
    in_box = λ u a m. ground (arith, m, in_box u a);
    in_batches = λ j a m. ground (arith, m, in_batches j a, e);
    in_rests = λ j a m. ground (arith, m, in_rests j a, e, here.1);
  })
    where
      here : IsBatch s.nexts b xs × Chain s.nexts head (y ∷ ys)
      here = subst (Local s.nexts) e (local i)

      ne : head ≢ 0
      ne z = here.1.1 (sym here.1.0 ∙ z)

      mine : s.place head ≡ taken i
      mine = reaped i head (rw e (ground (arith, here.1.0)))

      apart : mem head ys ≡ false
      apart = subst (λ t. mem t ys ≡ false) (sym here.1.0) here.1.2

      left : Chain s.nexts (s.nexts head) ys
      left = subst (λ t. Chain s.nexts (s.nexts t) ys) (sym here.1.0) here.1.3

  -- a client's block comes to the front of the batch
  pub add_block-Inv :
      (owner ptr : ℕ) (b : Batch) (xs : List ℕ)
      → pc i ≡ outside b xs
      → s.place ptr ≡ client
      → ptr ≢ 0
      → b.count < batch_max_size
      → Inv (add_block i owner ptr b xs s).0 (update pc i (add_block i owner ptr b xs s).1)
  unfolding add_block
  add_block-Inv owner ptr b xs e mine ne room = record {
    box = λ t. keep-box inv ptr b.head t (λ q. ground (arith, q, mine));
    local = λ j. elim (Bool-cases (i == j)) [
      | inl q ↦ rw q (grow-IsBatch s.nexts owner ptr b xs here away ne room)
      | inr q ↦ rw q (
          keep-Local inv ptr b.head j (λ z. ground (arith, z, mine)) (λ z. ground (arith, z, mine)))
    ];
    boxed = λ u a m. ground (arith, boxed u a m, mine);
    batched = λ j a m. ground (arith, m, batched j a, mine, e);
    reaped = λ j a m. ground (arith, m, reaped j a, mine, e);
    in_box = λ u a m. ground (arith, m, in_box u a);
    in_batches = λ j a m. ground (arith, m, in_batches j a, e);
    in_rests = λ j a m. ground (arith, m, in_rests j a, e);
  }
    where
      here : IsBatch s.nexts b xs
      here = subst (Local s.nexts) e (local i)

      away : mem ptr xs ≡ false
      away = elim (Bool-cases (mem ptr xs)) [
        | inr q ↦ q
        | inl q ↦ absurd (ground (arith, mine, batched i ptr (rw e q)))
      ]

  -- a block that is on no list is used
  pub use-Inv :
      (ptr v : ℕ) (p : Place)
      → IsLoose (s.place ptr)
      → IsLoose p
      → Inv (record s { nexts = update s.nexts ptr v; place = update s.place ptr p }) pc
  use-Inv ptr v p loose loose' = record {
    box = λ t. keep-box inv ptr v t (λ q. ground (arith, q, loose));
    local =
        λ j. keep-Local inv ptr v j (λ z. ground (arith, z, loose)) (λ z. ground (arith, z, loose));
    boxed = λ u a m. ground (arith, boxed u a m, loose);
    batched = λ j a m. ground (arith, batched j a m, loose);
    reaped = λ j a m. ground (arith, reaped j a m, loose);
    in_box = λ u a m. ground (arith, m, in_box u a, loose');
    in_batches = λ j a m. ground (arith, m, in_batches j a, loose');
    in_rests = λ j a m. ground (arith, m, in_rests j a, loose');
  }
