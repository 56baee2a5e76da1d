-- ===== src/Tlh/Outgoing.antt =====
-- A batch as the list of its blocks: one more block, and the flush.
use lzmalloc.Base.{
  Chain, Chain-frame, ◌++◌, update, List, [], ◌∷◌, length, mem, subst, sym, ◌<◌, ℕ, ◌≡◌, ◌≢◌, ◌⊎◌,
  inl, inr, refl, arith, true, false, ◌==◌,
}
use lzmalloc.Config.{batch_max_size}
use lzmalloc.Memory.{Batch, World}
use lzmalloc.Tlh.Flush.{Segment, update_off, flush_outgoing_batch-delivers}
use lzmalloc.Tlh.{flush_outgoing_batch}
use lzmalloc.Tlh.Free.{grow}

-- the batch of a thread
abbrev pub batch_of : ℕ → World → Batch
batch_of tlh w = (w.tlhs tlh).outgoing_batch

-- The batch is the list `xs` of blocks, linked in clear from its head to its tail.
abbrev pub IsBatch : (ℕ → ℕ) → Batch → List ℕ → Type 0
IsBatch nodes b xs = (b.count ≡ length xs) × ((xs ≡ []) ⊎ Segment nodes b.head b.tail xs)

-- a segment survives stores to other blocks
Segment-frame :
    (f g : ℕ → ℕ) (p last : ℕ) (xs : List ℕ)
    → Segment f p last xs
    → ((a : ℕ) → mem a xs ≡ true → g a ≡ f a)
    → Segment g p last xs
unfolding Segment
Segment-frame f g p last [] s same = s
Segment-frame f g p last (x ∷ []) s same = s
Segment-frame f g p last (x ∷ y ∷ ys) (e, nz, out, rest) same = (
  e,
  nz,
  out,
  Segment-frame f g (g x) last (y ∷ ys)
      (subst (λ t. Segment f t last (y ∷ ys)) (sym (same x (ground arith))) rest)
      (λ a h. same a (ground (arith, h))),
)

-- one more block in front of a batch
pub grow-IsBatch :
    (f g : ℕ → ℕ) (ptr : ℕ) (b : Batch) (xs : List ℕ)
    → ptr ≢ 0
    → b.count < batch_max_size
    → mem ptr xs ≡ false
    → IsBatch f b xs
    → g ptr ≡ b.head
    → ((a : ℕ) → ptr ≢ a → g a ≡ f a)
    → IsBatch g (grow ptr b) (ptr ∷ xs)
unfolding Segment
grow-IsBatch f g ptr b [] nz lt out (n, s) at_ptr same =
    (ground (arith, n), inr (refl, ground (arith, n), nz))
grow-IsBatch f g ptr b (x ∷ xs) nz lt out (n, inl e) at_ptr same = absurd (ground (arith, e))
grow-IsBatch f g ptr b (x ∷ xs) nz lt out (n, inr s) at_ptr same =
    let some_blocks : (b.count == 0) ≡ false = ground (arith, n) in
    (
      ground (arith, n, lt),
      inr (
          rw some_blocks (
            refl,
            nz,
            out,
            subst (λ t. Segment g t b.tail (x ∷ xs)) (sym at_ptr)
                (Segment-frame f g b.head b.tail (x ∷ xs) s
                  (λ a m. same a (ground (arith, m, out)))),
          )),
    )

flush_empty : (tlh : ℕ) (w : World) → (batch_of tlh w).count ≡ 0 → flush_outgoing_batch tlh w ≡ w
unfolding flush_outgoing_batch
flush_empty tlh w e = rw e refl

-- the old batch in the mailbox of its target
pub flush-mailbox :
    (tlh : ℕ) (w : World) (xs ys : List ℕ)
    → ((batch_of tlh w).count ≡ 0) ⊎ ((batch_of tlh w).target_tlh ≢ 0)
    → IsBatch w.nodes (batch_of tlh w) xs
    → Chain w.nodes (w.tlhs (batch_of tlh w).target_tlh).remote_free_head ys
    → ((a : ℕ) → mem a xs ≡ true → mem a ys ≡ false)
    → let w' = flush_outgoing_batch tlh w in
      Chain w'.nodes (w'.tlhs (batch_of tlh w).target_tlh).remote_free_head (xs ++ ys)
flush-mailbox tlh w [] ys ok (n, s) c apart =
    subst (λ v. Chain v.nodes (v.tlhs (batch_of tlh w).target_tlh).remote_free_head ys)
      (sym (flush_empty tlh w n)) c
flush-mailbox tlh w (x ∷ xs) ys ok (n, inl e) c apart = absurd (ground (arith, e))
flush-mailbox tlh w (x ∷ xs) ys ok (n, inr s) c apart =
    (flush_outgoing_batch-delivers tlh w (x ∷ xs) ys (ground (arith, n)) (ground (arith, n, ok)) s c
      apart).0

-- a store to a block outside
pub IsBatch-frame :
    (ptr v : ℕ) (nodes : ℕ → ℕ) (b : Batch) (xs : List ℕ)
    → mem ptr xs ≡ false
    → IsBatch nodes b xs
    → IsBatch (update nodes ptr v) b xs
IsBatch-frame ptr v nodes b xs out (n, inl e) = (n, inl e)
IsBatch-frame ptr v nodes b xs out (n, inr s) = (
  n,
  inr (
      Segment-frame nodes (update nodes ptr v) b.head b.tail xs s
        (λ a m. update_off nodes ptr v a xs m out)),
)

pub Chain-store :
    (ptr v : ℕ) (nodes : ℕ → ℕ) (p : ℕ) (xs : List ℕ)
    → mem ptr xs ≡ false
    → Chain nodes p xs
    → Chain (update nodes ptr v) p xs
Chain-store ptr v nodes p xs out c =
    Chain-frame nodes (update nodes ptr v) p xs c (λ a m. update_off nodes ptr v a xs m out)
