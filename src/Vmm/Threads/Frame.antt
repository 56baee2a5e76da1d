-- ===== src/Vmm/Threads/Frame.antt =====
-- What a step of one thread must do for the invariant of all to hold behind it.
use lzmalloc.Base.{
  ℕ, ◌%◌, ◌<◌, ◌≡◌, ◌≢◌, ◌⊎◌, inl, inr, arith, Bool, true, false, ◌==◌, Chain-frame, Bool-cases,
  ==_iff, update, ap, sym, ◌∙◌, subst,
}
use lzmalloc.Chunk.{Header}
use lzmalloc.Config.{huge_page_size}
use lzmalloc.Memory.{World}
use lzmalloc.Vmm.Cache.{Cache, Holds, NotCached, nexts}
use lzmalloc.Vmm.Threads.{
  Pc, idle, alloc_called, node_empty, extending, pushing, refilled, allocated, free_called,
  spilling, purging, draining, System, now_mapped,
}
use lzmalloc.Vmm.Threads.Defs.{in_hand, IsLive, Local, Inv}

IsLive-frame : (w w' : World) (a : ℕ) → w'.headers a ≡ w.headers a → IsLive w a → IsLive w' a
IsLive-frame w w' a e (ne, node, magic) = (
  ne,
  subst (λ (h : Header). h.node_id < 16) (sym e) node,
  ap (λ (h : Header). h.magic) e ∙ magic,
)

Local-frame :
    (w w' : World) (p : Pc)
    → ((a : ℕ) → in_hand p a ≡ true → w'.headers a ≡ w.headers a)
    → Local w p
    → Local w' p
Local-frame w w' (allocated chunk) same l =
    λ ne. IsLive-frame w w' chunk (same chunk (ground arith)) (l ne)
Local-frame w w' (free_called chunk) same l = IsLive-frame w w' chunk (same chunk (ground arith)) l
Local-frame w w' (spilling chunk) same l = IsLive-frame w w' chunk (same chunk (ground arith)) l
Local-frame w w' (draining node chunk left) same l =
    Chain-frame (nexts w) (nexts w') chunk left l (λ a m. ap (λ (h : Header). h.next) (same a m))
Local-frame w w' idle same l = tt
Local-frame w w' alloc_called same l = tt
Local-frame w w' (purging node) same l = tt
Local-frame w w' (node_empty node) same l = l
Local-frame w w' (extending node) same l = l
Local-frame w w' (pushing node base) same l = l
Local-frame w w' (refilled node) same l = l

-- where a chunk that a thread holds comes from: its own hand, a list, or a new mapping
abbrev pub From : Cache → (ℕ → Bool) → Pc → ℕ → Type 0
From c mapped p a = (in_hand p a ≡ true) ⊎ (¬ NotCached c a) ⊎ (mapped a ≡ false)

-- A step from `w` and `p` to `w'` and `p'`, with `c` cached and `mapped` mapped before.
pub record Change (c : Cache) (mapped : ℕ → Bool) (w : World) (p : Pc) (w' : World) (p' : Pc)
    : Type 0 where
  pub cached : Cache
  pub holds : Holds w' cached
  pub local : Local w' p'
  pub mine : (a : ℕ) → in_hand p' a ≡ true → NotCached cached a × From c mapped p a
  pub others :
      (a : ℕ)
      → NotCached c a
      → in_hand p a ≡ false
      → mapped a ≡ true
      → NotCached cached a × (w'.headers a ≡ w.headers a)
  pub unmapped :
      (a : ℕ)
      → now_mapped p' mapped a ≡ false
      → NotCached c a
      → in_hand p a ≡ false
      → NotCached cached a × (in_hand p' a ≡ false)
  pub kept :
      (a : ℕ)
      → a % huge_page_size ≡ 0
      → NotCached cached a
      → in_hand p' a ≡ false
      → NotCached c a × (in_hand p a ≡ false)

module _ {c : Cache} {s : System} (inv : Inv c s) (i : ℕ) (w' : World) (p' : Pc)
    (x : Change c s.mapped s.world (s.pc i) w' p') where
  open inv use {holds, local, hand, apart, used, unmapped}

  -- a chunk that is not the mover's stays as it is
  foreign :
      (a : ℕ)
      → NotCached c a
      → in_hand (s.pc i) a ≡ false
      → s.mapped a ≡ true
      → NotCached x.cached a × (w'.headers a ≡ s.world.headers a) × (in_hand p' a ≡ false)
  foreign a out other m =
      let (out', same) = x.others a out other m in
      (
        out',
        same,
        elim (Bool-cases (in_hand p' a)) [
          | inr e ↦ e
          | inl e ↦ elim (x.mine a e).1 [
            | inl h ↦ absurd (ground (arith, h, other))
            | inr r ↦ elim r [ inl n ↦ absurd (n out) | inr u ↦ absurd (ground (arith, u, m)) ]
          ]
        ],
      )

  -- the chunks of another thread
  of_other :
      (j : ℕ)
      → i ≢ j
      → (a : ℕ) → in_hand (s.pc j) a ≡ true
      → NotCached c a × (in_hand (s.pc i) a ≡ false) × (s.mapped a ≡ true)
  of_other j ne a h = ((hand j a h).0, ground (arith, apart i j a, h), mapped_if j a h)
    where
      mapped_if : (j a : ℕ) → in_hand (s.pc j) a ≡ true → s.mapped a ≡ true
      mapped_if j a h = elim (Bool-cases (s.mapped a)) [
        | inl e ↦ e
        | inr e ↦ absurd (ground (arith, (unmapped a e).2 j, h))
      ]

  of_client :
      (a : ℕ)
      → s.in_use a ≡ true
      → NotCached c a × (in_hand (s.pc i) a ≡ false) × (s.mapped a ≡ true)
  of_client a u = ((used a u).0, ground (arith, hand i a, u), mapped_if)
    where
      mapped_if : s.mapped a ≡ true
      mapped_if = elim (Bool-cases (s.mapped a)) [
        | inl e ↦ e
        | inr e ↦ absurd (ground (arith, (unmapped a e).1, u))
      ]

  -- a chunk that the mover holds is not foreign
  not_foreign :
      (a : ℕ)
      → in_hand p' a ≡ true
      → NotCached c a × (in_hand (s.pc i) a ≡ false) × (s.mapped a ≡ true)
      → ⊥
  not_foreign a h (out, other, m) = ground (arith, (foreign a out other m).2, h)

  mine-unused : (a : ℕ) → in_hand p' a ≡ true → s.in_use a ≡ false
  mine-unused a h = elim (Bool-cases (s.in_use a)) [
    | inr e ↦ e
    | inl e ↦ absurd (not_foreign a h (of_client a e))
  ]

  Change-hand :
      (j a : ℕ)
      → in_hand (update s.pc i p' j) a ≡ true
      → NotCached x.cached a × (s.in_use a ≡ false)
  Change-hand j a h = elim (Bool-cases (i == j)) [
    | inl e ↦ let h' : in_hand p' a ≡ true = rw e at h in ((x.mine a h').0, mine-unused a h')
    | inr e ↦
        let h' : in_hand (s.pc j) a ≡ true = rw e at h in
        let (out, other, m) = of_other j (ground (arith, e)) a h' in
        ((foreign a out other m).0, (hand j a h').1)
  ]

  Change-apart :
      (j k a : ℕ)
      → in_hand (update s.pc i p' j) a ≡ true
      → in_hand (update s.pc i p' k) a ≡ true
      → j ≡ k
  Change-apart j k a h h' = elim (Bool-cases (i == j)) [
    | inl e ↦ elim (Bool-cases (i == k)) [
      | inl e' ↦ sym ((==_iff i j).0 e) ∙ (==_iff i k).0 e'
      | inr e' ↦
          let mine : in_hand p' a ≡ true = rw e at h in
          let theirs : in_hand (s.pc k) a ≡ true = rw e' at h' in
          absurd (not_foreign a mine (of_other k (ground (arith, e')) a theirs))
    ]
    | inr e ↦
        let theirs : in_hand (s.pc j) a ≡ true = rw e at h in
        elim (Bool-cases (i == k)) [
          | inl e' ↦
              let mine : in_hand p' a ≡ true = rw e' at h' in
              absurd (not_foreign a mine (of_other j (ground (arith, e)) a theirs))
          | inr e' ↦
              let others : in_hand (s.pc k) a ≡ true = rw e' at h' in apart j k a theirs others
        ]
  ]

  still_unmapped : (a : ℕ) → now_mapped p' s.mapped a ≡ false → s.mapped a ≡ false
  still_unmapped a m = ground arith

  Change-unmapped :
      (a : ℕ)
      → now_mapped p' s.mapped a ≡ false
      → NotCached x.cached a
        × (s.in_use a ≡ false)
        × ((j : ℕ) → in_hand (update s.pc i p' j) a ≡ false)
  Change-unmapped a m =
      let (out, unused, no_hand) = unmapped a (still_unmapped a m) in
      let (out', mine) = x.unmapped a m out (no_hand i) in
      (out', unused, λ j. ground (arith, mine, no_hand j))

  pub Change-Inv : Inv x.cached (record {
    world = w';
    pc = update s.pc i p';
    in_use = s.in_use;
    mapped = now_mapped p' s.mapped;
  })
  Change-Inv = record {
    holds = x.holds;
    local = λ j. elim (Bool-cases (i == j)) [
      | inl e ↦ rw e x.local
      | inr e ↦ rw e (
          Local-frame s.world w' (s.pc j)
            (λ a h.
              let (out, other, m) = of_other j (ground (arith, e)) a h in (foreign a out other m).1)
            (local j))
    ];
    hand = Change-hand;
    apart = Change-apart;
    used = λ a u.
        let (out, other, m) = of_client a u in
        let (out', same, no_hand) = foreign a out other m in
        (out', IsLive-frame s.world w' a same (used a u).1);
    unmapped = Change-unmapped;
  }

  -- a chunk that is nowhere behind the step was nowhere before it
  pub Change-kept :
      (a : ℕ)
      → a % huge_page_size ≡ 0
      → NotCached x.cached a
      → ((j : ℕ) → in_hand (update s.pc i p' j) a ≡ false)
      → NotCached c a × ((j : ℕ) → in_hand (s.pc j) a ≡ false)
  Change-kept a k out no_hand =
      let (out', mine) = x.kept a k out (ground (arith, no_hand i)) in
      (out', λ j. ground (arith, no_hand j, mine))
