-- ===== src/Hooks/Base.antt =====
-- The bump allocator of the bootstrap.
use native.Mathlib.Nat.{pow-le-pow_right}
use lzmalloc.Base.{
  ℕ, ◌+◌, ◌-◌, ◌%◌, ◌^◌, ◌≤◌, ◌<◌, ◌≡◌, ◌⊎◌, inl, inr, refl, arith, none, some, ◌==◌, ltb,
  if◌then◌else◌, Bool-cases, update, update_self, leb, ◌&&◌, false, true, ltb→lt, le→ltb,
}
use lzmalloc.Hooks.{
  Hooks, base_malloc_aligned, base_heap_size, abi_alignment, hook_usable_size, is_base_ptr,
}
use lzmalloc.Word.{word_mod, add64, sub64, align_up}
use lzmalloc.Word.Align.{align_up_least, align_up_wraps}

-- the bytes that are set aside for a request
abbrev pub reserved : ℕ → ℕ
reserved size = if size == 0 then abi_alignment else size

-- A block at `p` for a request, and the state behind it.
pub record IsBumped (s s' : Hooks) (k size p : ℕ) : Type 0 where
  pub aligned : p % 2 ^ k ≡ 0
  pub after : s.base_heap + s.base_offset + 16 ≤ p
  pub before : p + reserved size ≤ s'.base_heap + s'.base_offset
  pub inside : s'.base_offset ≤ base_heap_size
  pub grown : s.base_offset ≤ s'.base_offset
  pub sized : hook_usable_size p s' ≡ reserved size

-- The allocator of the bootstrap, for a request below 2^62 bytes and an alignment of a power of two
-- from 16 bytes to 2 MB, where its heap is not at NULL, lies below 2^62 with the 16 MB from its
-- start, and is not used beyond its end: it gives a block that is aligned, lies behind its header
-- and behind all that was given before, ends within the heap of 4 MB and within what is now in use,
-- and whose usable size is the request, or 16 bytes for an empty one; or it traps, and then the
-- heap has no room for the request, its header, the alignment and 16 bytes.
pub base_malloc_aligned-IsBumped :
    (k size : ℕ) (s : Hooks)
    → 4 ≤ k
    → k ≤ 21
    → size < 2 ^ 62
    → 0 < s.base_heap
    → s.base_heap + 2 ^ 24 < 2 ^ 62
    → s.base_offset ≤ base_heap_size
    → ((r : ℕ × Hooks) × (base_malloc_aligned (2 ^ k) size s ≡ some r) × IsBumped s r.1 k size r.0)
      ⊎ ((base_malloc_aligned (2 ^ k) size s ≡ none)
          × (base_heap_size < s.base_offset + 16 + 2 ^ k + reserved size + 16))
unfolding base_malloc_aligned hook_usable_size is_base_ptr
base_malloc_aligned-IsBumped k size s low high small pos fits used =
    elim (Bool-cases (ltb base_heap_size stop)) [
      | inl e ↦
          inr (
            rw (kept, at, whole, e) refl,
            omega (arith, ltb→lt base_heap_size stop e, least, covers),
          )
      | inr e ↦
          let inside : stop ≤ base_heap_size = ground (arith, e) in
          let ahead : payload < s.base_heap + base_heap_size =
            omega (arith, least, covers, some_bytes) in
          let in_heap : (leb s.base_heap payload && ltb payload (add64 s.base_heap base_heap_size))
              ≡ true =
            ground (arith, least, ahead) in
          inl (
            (
              payload,
              record s { base_offset = stop; exact_size = update s.exact_size (payload - 16) n },
            ),
            rw (kept, at, whole, e, head, back) refl,
            record {
              aligned = least.0;
              after = least.1;
              before = omega (arith, least, covers);
              inside = inside;
              grown = omega (arith, least, covers);
              sized = rw (live, in_heap, back_down) (update_self s.exact_size (payload - 16) n);
            },
          )
    ]
  where
    n : ℕ
    n = reserved size

    power : (16 ≤ 2 ^ k) × (2 ^ k ≤ 2097152)
    power =
        (pow-le-pow_right {n = 2} (omega arith) low, pow-le-pow_right {n = 2} (omega arith) high)

    kept : ltb (2 ^ k) abi_alignment ≡ false
    kept = le→ltb _ _ power.0

    payload : ℕ
    payload = align_up (s.base_heap + s.base_offset + 16) (2 ^ k)

    least :
        (payload % 2 ^ k ≡ 0)
        × (s.base_heap + s.base_offset + 16 ≤ payload)
        × (payload < s.base_heap + s.base_offset + 16 + 2 ^ k)
    least = align_up_least k (s.base_heap + s.base_offset + 16) (omega arith) (omega (arith, power))

    at : add64 (add64 s.base_heap s.base_offset) 16 ≡ s.base_heap + s.base_offset + 16
    at = omega arith

    total : ℕ
    total = align_up n 16

    n_small : n < 2 ^ 62
    n_small = ground arith

    covers : (total % 16 ≡ 0) × (n ≤ total) × (total < n + 16)
    covers = align_up_least 4 n (omega arith) (omega (arith, n_small))

    stop : ℕ
    stop = payload - s.base_heap + total

    whole : add64 (add64 (sub64 (sub64 payload 16) s.base_heap) 16) total ≡ stop
    whole = omega (arith, least, covers, power, n_small)

    head : add64 s.base_heap (sub64 (sub64 payload 16) s.base_heap) ≡ payload - 16
    head = omega (arith, least, power)

    back : add64 (payload - 16) 16 ≡ payload
    back = omega (arith, least, power)

    back_down : sub64 payload 16 ≡ payload - 16
    back_down = omega (arith, least, power)

    live : (payload == 0) ≡ false
    live = ground (arith, least)

    some_bytes : 0 < n
    some_bytes = ground arith

-- For each of the 15 largest sizes and an alignment of a power of two from 16 bytes to 2 MB, the
-- allocator of the bootstrap does not trap, where its heap is not at NULL, lies below 2^62 with the
-- 16 MB from its start, and has room for a header and the alignment: the block that is given starts
-- at the end of what is in use of the heap, so that it has no byte, and its usable size is the size
-- that was asked for, far more than the heap.
pub base_malloc_aligned-overflow :
    (k size : ℕ) (s : Hooks)
    → 4 ≤ k
    → k ≤ 21
    → word_mod - 16 < size
    → size < word_mod
    → 0 < s.base_heap
    → s.base_heap + 2 ^ 24 < 2 ^ 62
    → s.base_offset + 16 + 2 ^ k ≤ base_heap_size
    → (r : ℕ × Hooks) × (base_malloc_aligned (2 ^ k) size s ≡ some r)
      × (r.0 ≡ r.1.base_heap + r.1.base_offset)
      × (r.1.base_offset ≤ base_heap_size)
      × (hook_usable_size r.0 r.1 ≡ size)
unfolding base_malloc_aligned hook_usable_size is_base_ptr
base_malloc_aligned-overflow k size s low high large small pos fits room = (
  (payload, record s { base_offset = stop; exact_size = update s.exact_size (payload - 16) size }),
  rw (kept, some_size, at, whole, inside, head, back) refl,
  omega (arith, least),
  omega (arith, least, room),
  rw (live, in_heap, back_down) (update_self s.exact_size (payload - 16) size),
)
  where
    power : (16 ≤ 2 ^ k) × (2 ^ k ≤ 2097152)
    power =
        (pow-le-pow_right {n = 2} (omega arith) low, pow-le-pow_right {n = 2} (omega arith) high)

    kept : ltb (2 ^ k) abi_alignment ≡ false
    kept = le→ltb _ _ power.0

    some_size : (size == 0) ≡ false
    some_size = ground (arith, large)

    payload : ℕ
    payload = align_up (s.base_heap + s.base_offset + 16) (2 ^ k)

    least :
        (payload % 2 ^ k ≡ 0)
        × (s.base_heap + s.base_offset + 16 ≤ payload)
        × (payload < s.base_heap + s.base_offset + 16 + 2 ^ k)
    least =
        align_up_least k (s.base_heap + s.base_offset + 16) (omega arith)
          (omega (arith, power, fits, room))

    at : add64 (add64 s.base_heap s.base_offset) 16 ≡ s.base_heap + s.base_offset + 16
    at = omega (arith, fits, room)

    stop : ℕ
    stop = payload - s.base_heap

    none_left : align_up size 16 ≡ 0
    none_left = align_up_wraps size large small

    whole : add64 (add64 (sub64 (sub64 payload 16) s.base_heap) 16) (align_up size 16) ≡ stop
    whole = rw none_left (omega (arith, least, power, fits, room))

    inside : ltb base_heap_size stop ≡ false
    inside = ground (arith, least, room)

    head : add64 s.base_heap (sub64 (sub64 payload 16) s.base_heap) ≡ payload - 16
    head = omega (arith, least, power, fits, room)

    back : add64 (payload - 16) 16 ≡ payload
    back = omega (arith, least, power, fits, room)

    back_down : sub64 payload 16 ≡ payload - 16
    back_down = omega (arith, least, power, fits, room)

    live : (payload == 0) ≡ false
    live = ground (arith, least)

    in_heap : (leb s.base_heap payload && ltb payload (add64 s.base_heap base_heap_size)) ≡ true
    in_heap = ground (arith, least, room)
