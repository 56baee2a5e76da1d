-- ===== src/Tlh/FreeList.antt =====
-- The free list of a slab is a stack of blocks whose links are masked.
use lzmalloc.Base.{
  ℕ, ◌<◌, ◌≡◌, ◌≢◌, refl, sym, subst, ap, ◌∙◌, arith, List, [], ◌∷◌, mem, false, ◌==◌, update,
  update_self,
}
use lzmalloc.Memory.{World}
use lzmalloc.Security.{ptr_obfuscate}
use lzmalloc.Security.Laws.{ptr_obfuscate_twice}
use lzmalloc.Tlh.{pop_node, push_node}
use lzmalloc.Word.{word_mod}

-- the blocks from `p` on, under the secret: each link, unmasked at its own address, is the next block
unfoldable pub Masked : ℕ → (ℕ → ℕ) → ℕ → List ℕ → Type 0
Masked secret nodes p [] = p ≡ 0
Masked secret nodes p (x ∷ xs) =
    (p ≡ x)
    × (x ≢ 0)
    × (x < word_mod)
    × (mem x xs ≡ false)
    × Masked secret nodes (ptr_obfuscate secret (nodes x) x) xs

-- the free list of the slab at `slab`
abbrev pub FreeList : World → ℕ → List ℕ → Type 0
FreeList w slab xs = Masked w.secret w.nodes (w.slabs slab).free_list_head xs

-- a write to a node that is not on the list
Masked-frame :
    (secret : ℕ) (nodes : ℕ → ℕ) (a v p : ℕ) (xs : List ℕ)
    → mem a xs ≡ false
    → Masked secret nodes p xs
    → Masked secret (update nodes a v) p xs
unfolding Masked
Masked-frame secret nodes a v p [] h m = m
Masked-frame secret nodes a v p (x ∷ xs) h (e, nz, lt, fresh, rest) =
    let off : (a == x) ≡ false = ground (arith, h) in
    let off_rest : mem a xs ≡ false = ground (arith, h) in
    let same : update nodes a v x ≡ nodes x = rw off refl in
    (
      e,
      nz,
      lt,
      fresh,
      subst (λ t. Masked secret (update nodes a v) (ptr_obfuscate secret t x) xs) (sym same)
          (Masked-frame secret nodes a v (ptr_obfuscate secret (nodes x) x) xs off_rest rest),
    )

Masked-head_lt :
    (secret : ℕ) (nodes : ℕ → ℕ) (p : ℕ) (xs : List ℕ) → Masked secret nodes p xs → p < word_mod
unfolding Masked
Masked-head_lt secret nodes p [] e = omega (arith, e)
Masked-head_lt secret nodes p (x ∷ xs) (e, nz, lt, fresh, rest) = omega (arith, e)

-- Freeing a block that is not on the slab's free list pushes it on that list.
pub push_node-FreeList :
    (slab node : ℕ) (w : World) (xs : List ℕ)
    → w.secret < word_mod
    → node ≢ 0
    → node < word_mod
    → mem node xs ≡ false
    → FreeList w slab xs
    → FreeList (push_node slab node w) slab (node ∷ xs)
unfolding push_node Masked
push_node-FreeList slab node w xs hs nz lt fresh m =
    let head = (w.slabs slab).free_list_head in
    let stored = ptr_obfuscate w.secret head node in
    let read : ptr_obfuscate w.secret (update w.nodes node stored node) node ≡ head =
      ap (λ t. ptr_obfuscate w.secret t node) (update_self w.nodes node stored)
      ∙ ptr_obfuscate_twice w.secret head node hs (Masked-head_lt w.secret w.nodes head xs m) lt in
    (
      ap (λ s. s.free_list_head) (update_self w.slabs slab _),
      nz,
      lt,
      fresh,
      subst (λ t. Masked w.secret (update w.nodes node stored) t xs) (sym read)
          (Masked-frame w.secret w.nodes node stored head xs fresh m),
    )

-- Allocating from a free list that is not empty gives the block that was freed last, which is then
-- off the list.
pub pop_node-FreeList :
    (slab x : ℕ) (w : World) (xs : List ℕ)
    → FreeList w slab (x ∷ xs)
    → ((pop_node slab w).0 ≡ x) × FreeList (pop_node slab w).1 slab xs
unfolding pop_node Masked
pop_node-FreeList slab x w xs (e, nz, lt, fresh, rest) =
    let unmasked = λ (t : ℕ). ptr_obfuscate w.secret (w.nodes t) t in
    (
      e,
      subst (λ t. Masked w.secret w.nodes t xs)
          (sym (ap (λ s. s.free_list_head) (update_self w.slabs slab _) ∙ ap unmasked e)) rest,
    )
