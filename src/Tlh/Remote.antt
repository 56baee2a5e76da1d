-- ===== src/Tlh/Remote.antt =====
-- The batch of blocks that a thread frees for another one.
use lzmalloc.Base.{
  Chain, ◌++◌, update, mem-append, List, [], ◌∷◌, mem, subst, sym, ◌<◌, ℕ, ◌≤◌, ◌≡◌, ◌≢◌, ◌⊎◌, inl,
  inr, refl, arith, Bool, true, false, not, ◌==◌, ==_self, ◌||◌, ◌&&◌, leb, ltb, if◌then◌else◌,
  update_self, Bool-cases, ap, ◌∙◌,
}
use lzmalloc.Config.{batch_max_size}
use lzmalloc.Memory.{Batch, Tlh, World, set_node}
use lzmalloc.Tlh.Outgoing.{
  batch_of, IsBatch, grow-IsBatch, flush-mailbox, IsBatch-frame, Chain-store,
}
use lzmalloc.Tlh.{flush_outgoing_batch}
use lzmalloc.Tlh.Free.{free_remote, retarget, extend_batch, grow}

-- A flush leaves no batch where there was one with a target.
flushed_batch :
    (tlh : ℕ) (w : World)
    → (w.tlhs tlh).outgoing_batch.count ≡ 0 ⊎ (w.tlhs tlh).outgoing_batch.target_tlh ≢ 0
    → ((flush_outgoing_batch tlh w).tlhs tlh).outgoing_batch.count ≡ 0
unfolding flush_outgoing_batch
flushed_batch tlh w ok =
    elim (Bool-cases
      ((w.tlhs tlh).outgoing_batch.count == 0 || (w.tlhs tlh).outgoing_batch.target_tlh == 0)) [
        | inl e ↦ rw e (ground (arith, ok, e))
        | inr e ↦ rw (e, ==_self tlh) refl
      ]

batch_of-extend_batch :
    (tlh ptr : ℕ) (w : World) → batch_of tlh (extend_batch tlh ptr w) ≡ grow ptr (batch_of tlh w)
unfolding extend_batch
batch_of-extend_batch tlh ptr w =
    ap (λ t. t.outgoing_batch)
      (update_self w.tlhs tlh (record (w.tlhs tlh) { outgoing_batch = grow ptr (batch_of tlh w) }))

-- the batch has room for a block of `owner`
abbrev pub goes_on : ℕ → Batch → Bool
goes_on owner b = b.target_tlh == owner && ltb b.count batch_max_size

batch_of-retarget :
    (tlh owner : ℕ) (w : World)
    → ((batch_of tlh w).count ≡ 0) ⊎ ((batch_of tlh w).target_tlh ≢ 0)
    → ((batch_of tlh (retarget tlh owner w)).target_tlh ≡ owner)
      × ((batch_of tlh (retarget tlh owner w)).count
          ≡ (if goes_on owner (batch_of tlh w) then (batch_of tlh w).count else 0))
unfolding retarget
batch_of-retarget tlh owner w ok =
    let old = batch_of tlh w in
    let flushed = flush_outgoing_batch tlh w in
    let t = flushed.tlhs tlh in
    let t' : Tlh = record t { outgoing_batch = record t.outgoing_batch { target_tlh = owner } } in
    let stored = update_self flushed.tlhs tlh t' in
    elim (Bool-cases (not (old.target_tlh == owner) || leb batch_max_size old.count)) [
      | inl e ↦
          let other : goes_on owner old ≡ false = ground (arith, e) in
          rw (e, other)
            (
              ap (λ (x : Tlh). x.outgoing_batch.target_tlh) stored,
              ap (λ (x : Tlh). x.outgoing_batch.count) stored ∙ flushed_batch tlh w ok,
            )
      | inr e ↦
          let same : goes_on owner old ≡ true = ground (arith, e) in
          let target : old.target_tlh ≡ owner = ground (arith, e) in rw (e, same) (target, refl)
    ]

extend_batch_mailboxes :
    (tlh ptr a : ℕ) (w : World)
    → ((extend_batch tlh ptr w).tlhs a).remote_free_head ≡ (w.tlhs a).remote_free_head
unfolding extend_batch
extend_batch_mailboxes tlh ptr a w = ground arith

extend_batch_nodes :
    (tlh ptr : ℕ) (w : World)
    → (extend_batch tlh ptr w).nodes ≡ update w.nodes ptr (batch_of tlh w).head
unfolding extend_batch
extend_batch_nodes tlh ptr w = refl

retarget_same :
    (tlh owner : ℕ) (w : World) → goes_on owner (batch_of tlh w) ≡ true → retarget tlh owner w ≡ w
unfolding retarget
retarget_same tlh owner w on =
    let stays : (not ((batch_of tlh w).target_tlh == owner)
          || leb batch_max_size (batch_of tlh w).count)
        ≡ false =
      ground (arith, on) in
    rw stays refl

retarget_other :
    (tlh owner : ℕ) (w : World)
    → goes_on owner (batch_of tlh w) ≡ false
    → let w' = flush_outgoing_batch tlh w in
      ((retarget tlh owner w).nodes ≡ w'.nodes)
      × ((a : ℕ) → ((retarget tlh owner w).tlhs a).remote_free_head ≡ (w'.tlhs a).remote_free_head)
unfolding retarget
retarget_other tlh owner w off =
    let leaves : (not ((batch_of tlh w).target_tlh == owner)
          || leb batch_max_size (batch_of tlh w).count)
        ≡ true =
      ground (arith, off) in
    rw leaves (refl, λ a. ground arith)

-- the block in front of the batch, and a mailbox that it is not in
extend_batch-IsBatch :
    (tlh ptr box : ℕ) (u : World) (xs ys : List ℕ)
    → ptr ≢ 0
    → (batch_of tlh u).count < batch_max_size
    → mem ptr xs ≡ false
    → mem ptr ys ≡ false
    → IsBatch u.nodes (batch_of tlh u) xs
    → Chain u.nodes (u.tlhs box).remote_free_head ys
    → let w' = extend_batch tlh ptr u in
      IsBatch w'.nodes (batch_of tlh w') (ptr ∷ xs)
      × Chain w'.nodes (w'.tlhs box).remote_free_head ys
extend_batch-IsBatch tlh ptr box u xs ys nz lt out out' batch c =
    let b = batch_of tlh u in
    let nodes : ℕ → ℕ = update u.nodes ptr b.head in
    rw
      (
        extend_batch_nodes tlh ptr u,
        batch_of-extend_batch tlh ptr u,
        extend_batch_mailboxes tlh ptr box u,
      )
      (
        grow-IsBatch u.nodes nodes ptr b xs nz lt out batch (update_self u.nodes ptr b.head)
            (λ a off. ground (arith, off)),
        Chain-store ptr b.head u.nodes _ ys out' c,
      )

-- Freeing a block of another thread loses no block. The batch of the thread is the list `xs` of at
-- most 64 blocks, which leads in clear from its head to its tail, and it has a target unless it is
-- empty; the mailbox of the heap that it is for is the list `ys`; the lists share no block, and the
-- block that is freed is not NULL and on neither of them. Afterwards the batch is for the owner and
-- has at most 64 blocks. If it was for the owner and not full, it is the block followed by `xs`,
-- and the mailbox is `ys` still; else it is the block alone, and the mailbox is `xs` followed by
-- `ys`.
pub free_remote-IsBatch :
    (tlh owner ptr : ℕ) (w : World) (xs ys : List ℕ)
    → ptr ≢ 0
    → (batch_of tlh w).count ≤ batch_max_size
    → ((batch_of tlh w).count ≡ 0) ⊎ ((batch_of tlh w).target_tlh ≢ 0)
    → IsBatch w.nodes (batch_of tlh w) xs
    → Chain w.nodes (w.tlhs (batch_of tlh w).target_tlh).remote_free_head ys
    → ((a : ℕ) → mem a xs ≡ true → mem a ys ≡ false)
    → mem ptr (xs ++ ys) ≡ false
    → let w' = free_remote tlh owner ptr w in
      let b = batch_of tlh w' in
      let mailbox = (w'.tlhs (batch_of tlh w).target_tlh).remote_free_head in
      (b.target_tlh ≡ owner)
      × (b.count ≤ batch_max_size)
      × IsBatch w'.nodes b (if goes_on owner (batch_of tlh w) then ptr ∷ xs else ptr ∷ [])
      × Chain w'.nodes mailbox (if goes_on owner (batch_of tlh w) then ys else xs ++ ys)
unfolding free_remote
free_remote-IsBatch tlh owner ptr w xs ys nz bound ok batch box_list apart out =
    let v = set_node ptr 0 w in
    let u = retarget tlh owner v in
    let box = (batch_of tlh w).target_tlh in
    let (target, count) = batch_of-retarget tlh owner v ok in
    let (out_xs, out_ys) : (mem ptr xs ≡ false) × (mem ptr ys ≡ false) =
      (ground (arith, mem-append ptr xs ys, out), ground (arith, mem-append ptr xs ys, out)) in
    let grown = batch_of-extend_batch tlh ptr u in
    let stored : IsBatch v.nodes (batch_of tlh v) xs =
      IsBatch-frame ptr 0 w.nodes (batch_of tlh w) xs out_xs batch in
    let boxed : Chain v.nodes (v.tlhs box).remote_free_head ys =
      Chain-store ptr 0 w.nodes _ ys out_ys box_list in
    elim (Bool-cases (goes_on owner (batch_of tlh w))) [
      | inl on ↦
          let (b, c) =
            extend_batch-IsBatch tlh ptr box u xs ys nz (ground (arith, count, on)) out_xs out_ys
              (subst (λ x. IsBatch x.nodes (batch_of tlh x) xs) (sym (retarget_same tlh owner v on))
                stored)
              (subst (λ x. Chain x.nodes (x.tlhs box).remote_free_head ys)
                (sym (retarget_same tlh owner v on)) boxed) in
          rw on (
            ap (λ (x : Batch). x.target_tlh) grown ∙ target,
            rw grown (ground (arith, count, on, bound)),
            b,
            c,
          )
      | inr off ↦
          let (same, boxes) = retarget_other tlh owner v off in
          let (b, c) =
            extend_batch-IsBatch tlh ptr box u [] (xs ++ ys) nz (ground (arith, count, off)) refl
              out (ground (arith, count, off), inl refl)
              (rw (same, boxes box) (flush-mailbox tlh v xs ys ok stored boxed apart)) in
          rw off (
            ap (λ (x : Batch). x.target_tlh) grown ∙ target,
            rw grown (ground (arith, count, off)),
            b,
            c,
          )
    ]
