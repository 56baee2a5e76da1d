-- ===== src/Base/Chains.antt =====
-- Singly linked lists in memory: `next` leads from `p` through the distinct addresses of a list to
-- NULL.
use Prim.Native.Nat.{ℕ}
use mathlib.Core.Path.{◌≡◌, refl, sym, subst, ap}
use mathlib.Core.Logic.{◌≢◌}
use mathlib.Core.Bool.{Bool, true, false, ◌||◌}
use mathlib.Core.List.{List, [], ◌∷◌, ◌++◌}
use native.Mathlib.Omega.{arith}
use lzmalloc.Base.Tests.{◌==◌}

abbrev pub mem : ℕ → List ℕ → Bool
mem a [] = false
mem a (x ∷ xs) = a == x || mem a xs

abbrev pub Chain : (ℕ → ℕ) → ℕ → List ℕ → Type 0
Chain next p [] = p ≡ 0
Chain next p (x ∷ xs) = (p ≡ x) × (x ≢ 0) × (mem x xs ≡ false) × Chain next (next x) xs

-- a chain survives stores to addresses off it
pub Chain-frame :
    (f g : ℕ → ℕ) (p : ℕ) (xs : List ℕ)
    → Chain f p xs
    → ((a : ℕ) → mem a xs ≡ true → g a ≡ f a)
    → Chain g p xs
Chain-frame f g p [] c same = c
Chain-frame f g p (x ∷ xs) (e, ne, out, c) same = (
  e,
  ne,
  out,
  Chain-frame f g (g x) xs (subst (λ t. Chain f t xs) (sym (same x (ground arith))) c)
      (λ a h. same a (ground (arith, h))),
)

pub Chain-null : (f : ℕ → ℕ) (xs : List ℕ) → Chain f 0 xs → xs ≡ []
Chain-null f [] c = refl
Chain-null f (x ∷ xs) c = absurd (c.1 (sym c.0))

pub Chain-ne :
    (f : ℕ → ℕ) (p : ℕ) (xs : List ℕ) → Chain f p xs → p ≢ 0 → (ys : List ℕ) × (xs ≡ p ∷ ys)
Chain-ne f p [] c ne = absurd (ne c)
Chain-ne f p (x ∷ xs) c ne = (xs, ap (λ t. t ∷ xs) (sym c.0))

pub mem-append : (a : ℕ) (xs ys : List ℕ) → mem a (xs ++ ys) ≡ (mem a xs || mem a ys)
mem-append a [] ys = refl
mem-append a (x ∷ xs) ys = ground (arith, mem-append a xs ys)
