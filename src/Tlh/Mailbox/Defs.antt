-- ===== src/Tlh/Mailbox/Defs.antt =====
-- What holds between the steps: the linked lists of the code are the lists of blocks, and each block
-- is in the list that its place names.
use lzmalloc.Base.{
  ℕ, ◌≡◌, ◌≢◌, sym, subst, ◌∙◌, arith, true, List, [], ◌∷◌, mem, update, Chain, Chain-frame,
  update_ne,
}
use lzmalloc.Memory.{Batch}
use lzmalloc.Tlh.Flush.{Segment, Segment-last}
use lzmalloc.Tlh.Mailbox.{
  in_batch, in_mailbox, taken, Shared, Pc, outside, linking, swapping, reaping,
}

abbrev pub batch_of : Pc → List ℕ
batch_of (outside b xs) = xs
batch_of (linking b xs old) = xs
batch_of (swapping b xs old) = xs
batch_of (reaping b xs h ys) = xs

abbrev pub rest_of : Pc → List ℕ
rest_of (reaping b xs h ys) = ys
rest_of _ = []

abbrev pub IsBatch : (ℕ → ℕ) → Batch → List ℕ → Type 0
IsBatch nexts b [] = b.count ≡ 0
IsBatch nexts b (x ∷ xs) = (b.count ≢ 0) × Segment nexts b.head b.tail (x ∷ xs)

-- what a thread knows of the links
abbrev pub Local : (ℕ → ℕ) → Pc → Type 0
Local nexts (outside b xs) = IsBatch nexts b xs
Local nexts (linking b xs old) = (b.count ≢ 0) × IsBatch nexts b xs
Local nexts (swapping b xs old) = (b.count ≢ 0) × IsBatch nexts b xs × (nexts b.tail ≡ old)
Local nexts (reaping b xs h ys) = IsBatch nexts b xs × Chain nexts h ys

pub record Inv (s : Shared) (pc : ℕ → Pc) : Type 0 where
  pub box : (t : ℕ) → Chain s.nexts (s.heads t) (s.boxes t)
  pub local : (i : ℕ) → Local s.nexts (pc i)
  pub boxed : (t a : ℕ) → mem a (s.boxes t) ≡ true → s.place a ≡ in_mailbox t
  pub batched : (i a : ℕ) → mem a (batch_of (pc i)) ≡ true → s.place a ≡ in_batch i
  pub reaped : (i a : ℕ) → mem a (rest_of (pc i)) ≡ true → s.place a ≡ taken i
  pub in_box : (t a : ℕ) → s.place a ≡ in_mailbox t → mem a (s.boxes t) ≡ true
  pub in_batches : (i a : ℕ) → s.place a ≡ in_batch i → mem a (batch_of (pc i)) ≡ true
  pub in_rests : (i a : ℕ) → s.place a ≡ taken i → mem a (rest_of (pc i)) ≡ true

pub IsBatch-tail :
    (f : ℕ → ℕ) (b : Batch) (xs : List ℕ) → b.count ≢ 0 → IsBatch f b xs → mem b.tail xs ≡ true
IsBatch-tail f b [] n s = absurd (n s)
IsBatch-tail f b (x ∷ xs) n (m, s) = Segment-last f b.head b.tail (x ∷ xs) s

module _ (f g : ℕ → ℕ) where
  pub Segment-frame :
      (p last : ℕ) (xs : List ℕ)
      → Segment f p last xs
      → ((a : ℕ) → mem a xs ≡ true → g a ≡ f a)
      → Segment g p last xs
  unfolding Segment
  Segment-frame p last [] s same = s
  Segment-frame p last (x ∷ []) s same = s
  Segment-frame p last (x ∷ y ∷ ys) (e, nz, out, rest) same = (
    e,
    nz,
    out,
    subst (λ t. Segment g t last (y ∷ ys)) (sym (same x (ground arith)))
        (Segment-frame (f x) last (y ∷ ys) rest (λ a m. same a (ground (arith, m)))),
  )

  IsBatch-frame :
      (b : Batch) (xs : List ℕ)
      → ((a : ℕ) → mem a xs ≡ true → g a ≡ f a)
      → IsBatch f b xs
      → IsBatch g b xs
  IsBatch-frame b [] same s = s
  IsBatch-frame b (x ∷ xs) same (n, s) = (n, Segment-frame b.head b.tail (x ∷ xs) s same)

  pub Local-frame :
      (p : Pc)
      → ((a : ℕ) → mem a (batch_of p) ≡ true → g a ≡ f a)
      → ((a : ℕ) → mem a (rest_of p) ≡ true → g a ≡ f a)
      → Local f p
      → Local g p
  Local-frame (outside b xs) same same' l = IsBatch-frame b xs same l
  Local-frame (linking b xs old) same same' (n, l) = (n, IsBatch-frame b xs same l)
  Local-frame (swapping b xs old) same same' (n, l, e) =
      (n, IsBatch-frame b xs same l, same b.tail (IsBatch-tail f b xs n l) ∙ e)
  Local-frame (reaping b xs h ys) same same' (l, c) =
      (IsBatch-frame b xs same l, Chain-frame f g h ys c same')

-- the link of the last block is no part of a segment
pub Segment-relink :
    (f : ℕ → ℕ) (p last v : ℕ) (xs : List ℕ)
    → Segment f p last xs
    → Segment (update f last v) p last xs
unfolding Segment
Segment-relink f p last v [] s = s
Segment-relink f p last v (x ∷ []) s = s
Segment-relink f p last v (x ∷ y ∷ ys) (e, nz, out, rest) =
    let there = Segment-last f (f x) last (y ∷ ys) rest in
    let other : last ≢ x = λ q. ground (arith, out, there, q) in
    (
      e,
      nz,
      out,
      subst (λ t. Segment (update f last v) t last (y ∷ ys)) (sym (update_ne f last x v other))
          (Segment-relink f (f x) last v (y ∷ ys) rest),
    )

pub IsBatch-relink :
    (f : ℕ → ℕ) (b : Batch) (v : ℕ) (xs : List ℕ)
    → IsBatch f b xs
    → IsBatch (update f b.tail v) b xs
IsBatch-relink f b v [] s = s
IsBatch-relink f b v (x ∷ xs) (n, s) = (n, Segment-relink f b.head b.tail v (x ∷ xs) s)
