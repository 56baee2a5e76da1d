-- ===== src/Vmm/Threads/Pushes.antt =====
-- The sections that put chunks on a list, and those that drain one.
use lzmalloc.Base.{
  ℕ, zero, suc, ◌+◌, ◌*◌, ◌≤◌, ◌<◌, ◌≡◌, ◌≢◌, ◌⊎◌, inl, inr, refl, arith, Bool, true, false, ◌==◌,
  List, [], ◌∷◌, mem, Chain, Chain-frame, Bool-cases, update, sym, ◌∙◌, subst, length, ==_of_ne,
  ==_self, ◌%◌,
}
use lzmalloc.Config.{
  max_numa_nodes, huge_page_size, extent_chunks, extent_size, vmm_max_cached_chunks,
}
use lzmalloc.Memory.{World, set_pool}
use lzmalloc.Word.{word_mod}
use lzmalloc.Vmm.{push_local, push_global, push_chunks, deflate}
use lzmalloc.Vmm.Cache.{Cache, Holds, NotCached, nexts, extent}
use lzmalloc.Vmm.Extent.{push_global-Holds, push_chunks-Holds}
use lzmalloc.Vmm.Free.{InUse, push_local-Holds, deflate-Holds}
use lzmalloc.Vmm.Purge.{clear_pool-Holds}
use lzmalloc.Vmm.Threads.{Pc, idle, refilled, purging, draining, in_extent, chunks_of, tail}
use lzmalloc.Vmm.Threads.Defs.{in_hand, IsLive, Local}
use lzmalloc.Vmm.Threads.Frame.{Change}

mem-extent :
    (left i base a : ℕ) (g : List ℕ)
    → mem a (extent left i base g) ≡ true
    → (mem a g ≡ true)
      ⊎ ((base + i * huge_page_size ≤ a) × (a < base + (i + left) * huge_page_size))
unfolding extent
mem-extent zero i base a g m = inl m
mem-extent (suc left) i base a g m =
    elim (mem-extent left (i + 1) base a ((base + i * huge_page_size) ∷ g) m) [
      | inl e ↦ ground (arith, e)
      | inr r ↦ inr (omega (arith, r))
    ]

extent-mem :
    (left i base a : ℕ) (g : List ℕ) → mem a (extent left i base g) ≡ false → mem a g ≡ false
unfolding extent
extent-mem zero i base a g m = m
extent-mem (suc left) i base a g m =
    ground (arith, extent-mem left (i + 1) base a ((base + i * huge_page_size) ∷ g) m)

-- a chunk of the extent is pushed
mem-extent_at :
    (left i base a : ℕ) (g : List ℕ)
    → a % huge_page_size ≡ 0
    → base % huge_page_size ≡ 0
    → base + i * huge_page_size ≤ a
    → a < base + (i + left) * huge_page_size
    → mem a (extent left i base g) ≡ true
unfolding extent
mem-extent_at zero i base a g k b lo hi = absurd (omega arith)
mem-extent_at (suc left) i base a g k b lo hi = elim (Bool-cases (a == base + i * huge_page_size)) [
  | inl e ↦ elim (Bool-cases (mem a (extent left (i + 1) base ((base + i * huge_page_size) ∷ g)))) [
    | inl m ↦ m
    | inr m ↦
        absurd
          (ground (arith, extent-mem left (i + 1) base a ((base + i * huge_page_size) ∷ g) m, e))
  ]
  | inr e ↦
      mem-extent_at left (i + 1) base a ((base + i * huge_page_size) ∷ g) k b (ground (arith, e))
        (omega arith)
]

push_chunks_headers :
    (left i base a : ℕ) (w : World)
    → base + (i + left) * huge_page_size ≤ word_mod
    → (a < base + i * huge_page_size) ⊎ (base + (i + left) * huge_page_size ≤ a)
    → (push_chunks left i base w).headers a ≡ w.headers a
unfolding push_chunks
push_chunks_headers zero i base a w fits away = refl
push_chunks_headers (suc left) i base a w fits away =
    push_chunks_headers left (i + 1) base a _ (omega arith) (omega (arith, away))
    ∙ (unfold push_global in ground (arith, away))

module _ (c : Cache) (mapped : ℕ → Bool) (w : World) (p : Pc) (h : Holds w c)
    (out : (a : ℕ) → in_hand p a ≡ true → NotCached c a) where
  -- a chunk in hand goes on the global list, and `p'` holds chunks that `p` held
  pub push_global-Change :
      (chunk : ℕ) (p' : Pc)
      → chunk ≢ 0
      → in_hand p chunk ≡ true
      → Local (push_global chunk (deflate chunk w)) p'
      → ((a : ℕ) → in_hand p' a ≡ true → (in_hand p a ≡ true) × (chunk ≢ a))
      → ((a : ℕ) → in_hand p a ≡ true → (in_hand p' a ≡ true) ⊎ (chunk ≡ a))
      → Change c mapped w p (push_global chunk (deflate chunk w)) p'
  push_global-Change chunk p' ne mine l kept left = record {
    cached = record c { global = chunk ∷ c.global };
    holds =
        push_global-Holds (deflate chunk w) c chunk ne (deflate-Holds w c chunk h) (out chunk mine);
    local = l;
    mine = λ a m. let (m', n) = kept a m in (pushed a n (out a m'), inl m');
    others = λ a n no_hand m. (
      pushed a (other a no_hand) n,
      unfold push_global deflate in ground (arith, other a no_hand),
    );
    unmapped = λ a m n no_hand. (pushed a (other a no_hand) n, ground (arith, kept a));
    kept = λ a k n no_hand. (
      record { not_local = n.not_local; not_global = ground (arith, n.not_global) },
      ground (arith, left a, no_hand, n.not_global),
    );
  }
    where
      other : (a : ℕ) → in_hand p a ≡ false → chunk ≢ a
      other a no_hand e = ground (arith, mine, no_hand, e)

      pushed :
          (a : ℕ) → chunk ≢ a → NotCached c a → NotCached (record c { global = chunk ∷ c.global }) a
      pushed a n o = record {
        not_local = o.not_local;
        not_global = ground (arith, o.not_global, n);
      }

  -- a chunk in hand goes on the list of its node
  pub push_local-Change :
      (chunk : ℕ)
      → ((a : ℕ) → in_hand p a ≡ (chunk == a))
      → IsLive w chunk
      → length (c.local (w.headers chunk).node_id) < vmm_max_cached_chunks
      → Change c mapped w p (push_local (w.headers chunk).node_id chunk w) idle
  push_local-Change chunk hand (ne, lt, magic) room = record {
    cached = record c { local = update c.local i (chunk ∷ c.local i) };
    holds = push_local-Holds w c i chunk h u refl room;
    local = tt;
    mine = λ a m. ground (arith, m);
    others = λ a n no_hand m.
        (pushed a (other a no_hand) n, unfold push_local in ground (arith, other a no_hand));
    unmapped = λ a m n no_hand. (pushed a (other a no_hand) n, refl);
    kept = λ a k n no_hand. (
      record { not_local = λ j lj. ground (arith, n.not_local j lj); not_global = n.not_global },
      ground (arith, hand a, n.not_local i lt),
    );
  }
    where
      mine : in_hand p chunk ≡ true
      mine = hand chunk ∙ ==_self chunk

      i : ℕ
      i = (w.headers chunk).node_id

      u : InUse w c chunk
      u = record { not_null = ne; not_cached = out chunk mine; node_lt = lt; magic = magic }

      other : (a : ℕ) → in_hand p a ≡ false → chunk ≢ a
      other a no_hand e = ground (arith, mine, no_hand, e)

      pushed :
          (a : ℕ)
          → chunk ≢ a
          → NotCached c a
          → NotCached (record c { local = update c.local i (chunk ∷ c.local i) }) a
      pushed a n o = record {
        not_local = λ j lj. ground (arith, o.not_local j lj, o.not_local i lt, n);
        not_global = o.not_global;
      }

  -- the chunks of a new extent in hand go on the global list
  pub push_chunks-Change :
      (node base : ℕ)
      → ((a : ℕ) → in_hand p a ≡ in_extent base a)
      → node < max_numa_nodes
      → 0 < base
      → base + extent_size ≤ word_mod
      → base % huge_page_size ≡ 0
      → Change c mapped w p (push_chunks extent_chunks 0 base w) (refilled node)
  push_chunks-Change node base hand lt pos fits aligned = record {
    cached = c';
    holds =
        push_chunks-Holds extent_chunks 0 base w c pos fits h
          (λ k lo hi. out _ (hand _ ∙ ground arith));
    local = lt;
    mine = λ a m. ground (arith, m);
    others = λ a n no_hand m. (
      pushed a (outside a no_hand) n,
      push_chunks_headers extent_chunks 0 base a w fits (outside a no_hand),
    );
    unmapped = λ a m n no_hand. (pushed a (outside a no_hand) n, refl);
    kept = λ a k n no_hand. (
      record {
        not_local = n.not_local;
        not_global = extent-mem extent_chunks 0 base a c.global n.not_global;
      },
      hand a ∙ off_extent a k n.not_global,
    );
  }
    where
      off_extent :
          (a : ℕ)
          → a % huge_page_size ≡ 0
          → mem a (extent extent_chunks 0 base c.global) ≡ false
          → in_extent base a ≡ false
      off_extent a k o = elim (Bool-cases (in_extent base a)) [
        | inr e ↦ e
        | inl e ↦ absurd (
            ground (
              arith,
              mem-extent_at extent_chunks 0 base a c.global k aligned (ground (arith, e))
                  (ground (arith, e)),
              o,
            ))
      ]

      c' : Cache
      c' = record c { global = extent extent_chunks 0 base c.global }

      outside :
          (a : ℕ)
          → in_hand p a ≡ false
          → (a < base + 0 * huge_page_size) ⊎ (base + (0 + extent_chunks) * huge_page_size ≤ a)
      outside a no_hand = elim (Bool-cases (in_extent base a)) [
        | inl e ↦ absurd (ground (arith, hand a, e, no_hand))
        | inr e ↦ ground (arith, e)
      ]

      not_pushed :
          (a : ℕ)
          → (a < base + 0 * huge_page_size) ⊎ (base + (0 + extent_chunks) * huge_page_size ≤ a)
          → mem a c.global ≡ false
          → mem a (extent extent_chunks 0 base c.global) ≡ false
      not_pushed a away o = elim (Bool-cases (mem a (extent extent_chunks 0 base c.global))) [
        | inr e ↦ e
        | inl e ↦ absurd (ground (arith, mem-extent extent_chunks 0 base a c.global e, away, o))
      ]

      pushed :
          (a : ℕ)
          → (a < base + 0 * huge_page_size) ⊎ (base + (0 + extent_chunks) * huge_page_size ≤ a)
          → NotCached c a
          → NotCached c' a
      pushed a away o = record {
        not_local = o.not_local;
        not_global = not_pushed a away o.not_global;
      }

chunks_of-Chain :
    (w : World) (xs : List ℕ) (a : ℕ) → Chain (nexts w) a xs → chunks_of (length xs) a w ≡ xs
unfolding chunks_of
chunks_of-Chain w [] a ch = refl
chunks_of-Chain w (x ∷ xs) a (e, ne, apart, rest) =
    let start : Chain (nexts w) (nexts w a) xs =
      subst (λ t. Chain (nexts w) (nexts w t) xs) (sym e) rest in
    rw (==_of_ne a 0 (λ z. ne (sym e ∙ z)), chunks_of-Chain w xs (nexts w a) start, e) refl

module _ (c : Cache) (mapped : ℕ → Bool) (w : World) (h : Holds w c) where
  -- the list of a node is taken in hand
  pub purge-Change :
      (node : ℕ)
      → node < max_numa_nodes
      → Change c mapped w
          (purging node)
          (set_pool node (record { free_chunks = 0; available_count = 0 }) w)
          (draining node
            (w.pools node).free_chunks
            (chunks_of (w.pools node).available_count (w.pools node).free_chunks w))
  purge-Change node lt =
      rw
        (
          h.counted node lt,
          chunks_of-Chain w (c.local node) (w.pools node).free_chunks (h.local node lt),
        )
        (record {
          cached = record c { local = update c.local node [] };
          holds = clear_pool-Holds w c node h;
          local = h.local node lt;
          mine = λ a m. (
            record {
              not_local = λ j lj. ground (arith, h.apart node j a lt lj, m);
              not_global = h.apart_global node a lt m;
            },
            inr (inl (λ n. ground (arith, n.not_local node lt, m))),
          );
          others = λ a n no_hand m. (
            record {
              not_local = λ j lj. ground (arith, n.not_local j lj);
              not_global = n.not_global;
            },
            refl,
          );
          unmapped = λ a m n no_hand. (
            record {
              not_local = λ j lj. ground (arith, n.not_local j lj);
              not_global = n.not_global;
            },
            n.not_local node lt,
          );
          kept = λ a k n no_hand. (
            record {
              not_local = λ j lj. ground (arith, n.not_local j lj, no_hand);
              not_global = n.not_global;
            },
            refl,
          );
        })

  -- the first chunk of a drained list goes on the global list
  pub drain-Change :
      (node chunk : ℕ) (left : List ℕ)
      → ((a : ℕ) → mem a left ≡ true → NotCached c a)
      → Chain (nexts w) chunk left
      → chunk ≢ 0
      → Change c mapped w
          (draining node chunk left)
          (push_global chunk (deflate chunk w))
          (draining node (w.headers chunk).next (tail left))
  drain-Change node chunk [] out ch ne = absurd (ne ch)
  drain-Change node chunk (x ∷ xs) out (e, live, apart, rest) ne =
      push_global-Change c mapped w (draining node chunk (x ∷ xs)) h out chunk
        (draining node (nexts w chunk) xs) ne (ground (arith, e))
        (Chain-frame (nexts w) _ (nexts w chunk) xs
          (subst (λ t. Chain (nexts w) (nexts w t) xs) (sym e) rest)
          (λ a m. unfold push_global deflate in ground (arith, e, apart, m)))
        (λ a m. ground (arith, m, e, apart)) (λ a m. ground (arith, m, e))
