-- ===== src/Thread/Zombies.antt =====
-- The list of zombies is a stack of the heaps whose threads have ended.
use lzmalloc.Base.{
  ℕ, ◌≡◌, ◌≢◌, sym, ap, subst, ◌∙◌, arith, List, ◌∷◌, mem, false, Chain, Chain-frame,
}
use lzmalloc.Memory.{World}
use lzmalloc.Thread.{Process, tlh_destructor, resurrect_zombie, settle_counts}
use lzmalloc.Tlh.{flush_outgoing_batch}

-- the links of the list of zombies
abbrev pub zombie_links : World → ℕ → ℕ
zombie_links w a = (w.tlhs a).next_zombie

flush_outgoing_batch_links :
    (tlh a : ℕ) (w : World) → zombie_links (flush_outgoing_batch tlh w) a ≡ zombie_links w a
unfolding flush_outgoing_batch
flush_outgoing_batch_links tlh a w = ground arith

settle_counts_links :
    (tlh a : ℕ) (w : World) → zombie_links (settle_counts tlh w) a ≡ zombie_links w a
unfolding settle_counts
settle_counts_links tlh a w = ground arith

tlh_destructor_other :
    (tlh a : ℕ) (p : Process)
    → tlh ≢ a
    → zombie_links (tlh_destructor tlh p).world a ≡ zombie_links p.world a
unfolding tlh_destructor
tlh_destructor_other tlh a p off = ground (
  arith,
  off,
  settle_counts_links tlh a (flush_outgoing_batch tlh p.world),
  flush_outgoing_batch_links tlh a p.world,
)

tlh_destructor_self :
    (tlh : ℕ) (p : Process)
    → tlh ≢ 0
    → ((tlh_destructor tlh p).zombie_tlhs ≡ tlh)
      × (zombie_links (tlh_destructor tlh p).world tlh ≡ p.zombie_tlhs)
unfolding tlh_destructor
tlh_destructor_self tlh p nz = (ground (arith, nz), ground (arith, nz))

resurrect_zombie_other :
    (a : ℕ) (p : Process)
    → p.zombie_tlhs ≢ a
    → zombie_links (resurrect_zombie p).1.world a ≡ zombie_links p.world a
unfolding resurrect_zombie
resurrect_zombie_other a p off = ground (arith, off)

resurrect_zombie_self :
    (p : Process)
    → p.zombie_tlhs ≢ 0
    → ((resurrect_zombie p).0 ≡ p.zombie_tlhs)
      × ((resurrect_zombie p).1.zombie_tlhs ≡ zombie_links p.world p.zombie_tlhs)
      × (zombie_links (resurrect_zombie p).1.world p.zombie_tlhs ≡ 0)
unfolding resurrect_zombie
resurrect_zombie_self p nz = (ground (arith, nz), ground (arith, nz), ground (arith, nz))

-- the list of zombies is `xs`
abbrev pub Zombies : Process → List ℕ → Type 0
Zombies p xs = Chain (zombie_links p.world) p.zombie_tlhs xs

tlh_destructor-Zombies :
    (tlh : ℕ) (xs : List ℕ) (p : Process)
    → tlh ≢ 0
    → mem tlh xs ≡ false
    → Zombies p xs
    → Zombies (tlh_destructor tlh p) (tlh ∷ xs)
tlh_destructor-Zombies tlh xs p nz out c =
    let q = tlh_destructor tlh p in
    let (head, self) = tlh_destructor_self tlh p nz in
    (
      head,
      nz,
      out,
      subst (λ t. Chain (zombie_links q.world) t xs) (sym self)
          (Chain-frame (zombie_links p.world) (zombie_links q.world) p.zombie_tlhs xs c
            (λ a m. tlh_destructor_other tlh a p (ground (arith, m, out)))),
    )

resurrect_zombie-Zombies :
    (x : ℕ) (xs : List ℕ) (p : Process)
    → Zombies p (x ∷ xs)
    → let r = resurrect_zombie p in (r.0 ≡ x) × Zombies r.1 xs × (zombie_links r.1.world x ≡ 0)
resurrect_zombie-Zombies x xs p (e, nz, out, c) =
    let q = (resurrect_zombie p).1 in
    let (answer, head, self) = resurrect_zombie_self p (λ z. nz (sym e ∙ z)) in
    (
      answer ∙ e,
      subst (λ t. Chain (zombie_links q.world) t xs) (sym (head ∙ ap (zombie_links p.world) e))
          (Chain-frame (zombie_links p.world) (zombie_links q.world) (zombie_links p.world x) xs c
            (λ a m. resurrect_zombie_other a p (ground (arith, m, out, e)))),
      subst (λ t. zombie_links q.world t ≡ 0) e self,
    )

-- Where the list of zombies is the chain `xs` and the heap `tlh`, which is not NULL, is not on it,
-- `lz_tlh_destructor` puts the heap in front: the list is then `tlh ∷ xs`. The next
-- `lz_resurrect_zombie` gives out this heap, the list is the chain `xs` again, which the heap is
-- not on, and the heap's own link is NULL.
pub resurrect_zombie-tlh_destructor :
    (tlh : ℕ) (xs : List ℕ) (p : Process)
    → tlh ≢ 0
    → mem tlh xs ≡ false
    → Zombies p xs
    → let q = tlh_destructor tlh p in
      let r = resurrect_zombie q in
      Zombies q (tlh ∷ xs) × (r.0 ≡ tlh) × Zombies r.1 xs × (zombie_links r.1.world tlh ≡ 0)
resurrect_zombie-tlh_destructor tlh xs p nz out c =
    let retired = tlh_destructor-Zombies tlh xs p nz out c in
    let (answer, rest, alone) = resurrect_zombie-Zombies tlh xs (tlh_destructor tlh p) retired in
    (retired, answer, rest, alone)
