-- ===== src/Tlh/Flush.antt =====
-- A flush delivers the batch: the mailbox of the target is the batch followed by what it was.
use lzmalloc.Base.{
  mem-append, ℕ, ◌≡◌, ◌≢◌, refl, sym, subst, ap, ◌∙◌, arith, List, [], ◌∷◌, mem, true, false, ◌||◌,
  ◌==◌, ◌++◌, Bool-cases, update, update_self, inl, inr, ==_iff, Chain, Chain-frame,
}
use lzmalloc.Memory.{Batch, Tlh, World}
use lzmalloc.Tlh.{flush_outgoing_batch}

-- the blocks from `p` to `last` along clear links
unfoldable pub Segment : (ℕ → ℕ) → ℕ → ℕ → List ℕ → Type 0
Segment next p last [] = p ≢ p
Segment next p last (x ∷ []) = (p ≡ x) × (last ≡ x) × (x ≢ 0)
Segment next p last (x ∷ y ∷ ys) =
    (p ≡ x) × (x ≢ 0) × (mem x (y ∷ ys) ≡ false) × Segment next (next x) last (y ∷ ys)

pub Segment-last :
    (next : ℕ → ℕ) (p last : ℕ) (xs : List ℕ) → Segment next p last xs → mem last xs ≡ true
unfolding Segment
Segment-last next p last [] s = absurd (s refl)
Segment-last next p last (x ∷ []) (e, l, nz) = ground (arith, l)
Segment-last next p last (x ∷ y ∷ ys) (e, nz, out, rest) =
    ground (arith, Segment-last next (next x) last (y ∷ ys) rest)

pub update_off :
    (next : ℕ → ℕ) (last old a : ℕ) (ys : List ℕ)
    → mem a ys ≡ true
    → mem last ys ≡ false
    → update next last old a ≡ next a
update_off next last old a ys h out = elim (Bool-cases (last == a)) [
  | inl e ↦
      let clash : mem a ys ≡ false = subst (λ t. mem t ys ≡ false) ((==_iff last a).0 e) out in
      ground (arith, h, clash)
  | inr e ↦ rw e refl
]

-- linking the last block of a segment to a list joins the two
pub Segment-join :
    (next : ℕ → ℕ) (p last old : ℕ) (xs ys : List ℕ)
    → Segment next p last xs
    → Chain next old ys
    → ((a : ℕ) → mem a xs ≡ true → mem a ys ≡ false)
    → Chain (update next last old) p (xs ++ ys)
unfolding Segment
Segment-join next p last old [] ys s c apart = absurd (s refl)
Segment-join next p last old (x ∷ []) ys (e, l, nz) c apart = (
  e,
  nz,
  apart x (ground arith),
  Chain-frame next (update next last old) _ ys
      (subst (λ t. Chain next t ys)
        (sym (ap (λ t. update next last old t) (sym l) ∙ update_self next last old)) c)
      (λ a h. update_off next last old a ys h (ap (λ t. mem t ys) l ∙ apart x (ground arith))),
)
Segment-join next p last old (x ∷ y ∷ zs) ys (e, nz, out, rest) c apart =
    let within = Segment-last next (next x) last (y ∷ zs) rest in
    let stays : update next last old x ≡ next x = elim (Bool-cases (last == x)) [
      | inl h ↦
          let clash : mem x (y ∷ zs) ≡ true =
            subst (λ t. mem t (y ∷ zs) ≡ true) ((==_iff last x).0 h) within in
          ground (arith, out, clash)
      | inr h ↦ rw h refl
    ] in
    (
      e,
      nz,
      mem-append x (y ∷ zs) ys ∙ ground (arith, out, apart x (ground arith)),
      subst (λ t. Chain (update next last old) t (y ∷ (zs ++ ys))) (sym stays)
          (Segment-join next (next x) last old (y ∷ zs) ys rest c
            (λ a h. apart a (ground (arith, h)))),
    )

abbrev pub no_batch : Batch
no_batch = record { target_tlh = 0; head = 0; tail = 0; count = 0 }

-- A batch that is not empty and has a target is delivered whole: the mailbox of the target becomes
-- the blocks of the batch, in order, followed by the blocks that were in the mailbox, and the
-- thread's batch is empty. The two lists share no block.
pub flush_outgoing_batch-delivers :
    (tlh : ℕ) (w : World) (xs ys : List ℕ)
    → (w.tlhs tlh).outgoing_batch.count ≢ 0
    → (w.tlhs tlh).outgoing_batch.target_tlh ≢ 0
    → Segment w.nodes (w.tlhs tlh).outgoing_batch.head (w.tlhs tlh).outgoing_batch.tail xs
    → Chain w.nodes (w.tlhs (w.tlhs tlh).outgoing_batch.target_tlh).remote_free_head ys
    → ((a : ℕ) → mem a xs ≡ true → mem a ys ≡ false)
    → let w' = flush_outgoing_batch tlh w in
      Chain w'.nodes (w'.tlhs (w.tlhs tlh).outgoing_batch.target_tlh).remote_free_head (xs ++ ys)
      × ((w'.tlhs tlh).outgoing_batch ≡ no_batch)
unfolding flush_outgoing_batch
flush_outgoing_batch-delivers tlh w xs ys some_count some_target s c apart =
    let batch = (w.tlhs tlh).outgoing_batch in
    let t = batch.target_tlh in
    let live : (batch.count == 0 || t == 0) ≡ false = ground arith in
    let joined =
      Segment-join w.nodes batch.head batch.tail (w.tlhs t).remote_free_head xs ys s c apart in
    let got : Tlh = record (w.tlhs t) { remote_free_head = batch.head } in
    let nodes = update w.nodes batch.tail (w.tlhs t).remote_free_head in
    let there : (update w.tlhs t got t).remote_free_head ≡ batch.head =
      ap (λ r. r.remote_free_head) (update_self w.tlhs t got) in
    let tlhs : ℕ → Tlh = update w.tlhs t got in
    let emptied : (update tlhs tlh (record (tlhs tlh) { outgoing_batch = no_batch })
          tlh).outgoing_batch
        ≡ no_batch =
      ap (λ (r : Tlh). r.outgoing_batch)
        (update_self tlhs tlh (record (tlhs tlh) { outgoing_batch = no_batch })) in
    rw live (elim (Bool-cases (tlh == t)) [
      | inl e ↦
          let moved = ap (λ a. (update w.tlhs t got a).remote_free_head) ((==_iff tlh t).0 e) in
          rw e (subst (λ h. Chain nodes h (xs ++ ys)) (sym (moved ∙ there)) joined, emptied)
      | inr e ↦ rw e (subst (λ h. Chain nodes h (xs ++ ys)) (sym there) joined, emptied)
    ])
