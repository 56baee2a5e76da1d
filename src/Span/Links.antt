-- ===== src/Span/Links.antt =====
-- Doubly linked lists in memory, as the active spans of a thread are: putting an element in front
-- and taking any element out.
use lzmalloc.Base.{
  ℕ, ◌≡◌, ◌≢◌, ◌⊎◌, refl, sym, subst, ap, ◌∙◌, arith, inl, inr, ◌==◌, ◌||◌, if◌then◌else◌, true,
  false, List, [], ◌∷◌, ◌++◌, mem, mem-append, Chain,
}

-- `next` leads from `q` through the distinct addresses of the list to NULL, and `prev` leads back,
-- from the first of them to `p`.
abbrev pub Linked : (ℕ → ℕ) → (ℕ → ℕ) → ℕ → ℕ → List ℕ → Type 0
Linked next prev p q [] = q ≡ 0
Linked next prev p q (x ∷ xs) =
    (q ≡ x) × (x ≢ 0) × (prev x ≡ p) × (mem x xs ≡ false) × Linked next prev x (next x) xs

pub Linked-Chain :
    (next prev : ℕ → ℕ) (p q : ℕ) (xs : List ℕ) → Linked next prev p q xs → Chain next q xs
Linked-Chain next prev p q [] l = l
Linked-Chain next prev p q (x ∷ xs) (e, ne, back, out, l) =
    (e, ne, out, Linked-Chain next prev x (next x) xs l)

pub Linked-frame :
    (f g f' g' : ℕ → ℕ) (p q : ℕ) (xs : List ℕ)
    → Linked f g p q xs
    → ((a : ℕ) → mem a xs ≡ true → (f' a ≡ f a) × (g' a ≡ g a))
    → Linked f' g' p q xs
Linked-frame f g f' g' p q [] l same = l
Linked-frame f g f' g' p q (x ∷ xs) (e, ne, back, out, l) same =
    let here = same x (ground arith) in
    (
      e,
      ne,
      here.1 ∙ back,
      out,
      Linked-frame f g f' g' x (f' x) xs (subst (λ t. Linked f g x t xs) (sym here.0) l)
          (λ a h. same a (ground (arith, h))),
    )

-- An element is linked in front of the list.
pub Linked-cons :
    (f g f' g' : ℕ → ℕ) (c q : ℕ) (xs : List ℕ)
    → Linked f g 0 q xs
    → c ≢ 0
    → mem c xs ≡ false
    → f' c ≡ q
    → g' c ≡ 0
    → ((a : ℕ) → c ≢ a → f' a ≡ f a)
    → ((a : ℕ) → c ≢ a → q ≢ a → g' a ≡ g a)
    → (q ≢ 0 → g' q ≡ c)
    → Linked f' g' 0 c (c ∷ xs)
Linked-cons f g f' g' c q [] l ne out at_c back_c same_f same_g back =
    (refl, ne, back_c, refl, at_c ∙ l)
Linked-cons f g f' g' c q (x ∷ xs) (e, nx, bx, ox, l) ne out at_c back_c same_f same_g back = (
  refl,
  ne,
  back_c,
  out,
  (
    at_c ∙ e,
    nx,
    subst (λ t. g' t ≡ c) e (back (λ z. nx (sym e ∙ z))),
    ox,
    Linked-frame f g f' g' x (f' x) xs
        (subst (λ t. Linked f g x t xs) (sym (same_f x (ground (arith, out)))) l)
        (λ a h. (
          same_f a (ground (arith, h, out)),
          same_g a (ground (arith, h, out)) (ground (arith, h, e, ox)),
        )),
  ),
)

-- what stands behind an element is in the list or is its end, and so is what stands before it
behind :
    (f g : ℕ → ℕ) (c p q : ℕ) (ys zs : List ℕ)
    → Linked f g p q (ys ++ c ∷ zs)
    → (f c ≡ 0) ⊎ (mem (f c) zs ≡ true)
behind f g c p q [] [] (e, ne, back, out, l) = inl l
behind f g c p q [] (z ∷ zs) (e, ne, back, out, (e', _, _, _, _)) = inr (ground (arith, e'))
behind f g c p q (y ∷ ys) zs (e, ne, back, out, l) = behind f g c y (f y) ys zs l

before :
    (f g : ℕ → ℕ) (c p q : ℕ) (ys zs : List ℕ)
    → Linked f g p q (ys ++ c ∷ zs)
    → ((q ≡ c) × (g c ≡ p)) ⊎ ((q ≢ c) × (mem (g c) ys ≡ true))
before f g c p q [] zs (e, ne, back, out, l) = inl (e, back)
before f g c p q (y ∷ ys) zs (e, ne, back, out, l) =
    inr (
      ground (arith, e, out, mem-append y ys (c ∷ zs)),
      ground (arith, before f g c y (f y) ys zs l),
    )

pub Linked-nonzero : (f g : ℕ → ℕ) (p q : ℕ) (xs : List ℕ) → Linked f g p q xs → mem 0 xs ≡ false
Linked-nonzero f g p q [] l = refl
Linked-nonzero f g p q (x ∷ xs) (e, ne, back, out, l) =
    ground (arith, Linked-nonzero f g x (f x) xs l, ne)

-- no element stands before or behind itself
Linked-apart :
    (f g : ℕ → ℕ) (c p q : ℕ) (ys zs : List ℕ)
    → Linked f g p q (ys ++ c ∷ zs)
    → mem p (ys ++ c ∷ zs) ≡ false
    → (f c ≢ c) × (g c ≢ c)
Linked-apart f g c p q [] [] (e, ne, back, out, l) fresh =
    (λ h. ne (sym h ∙ l), λ h. ground (arith, fresh, h, back))
Linked-apart f g c p q [] (z ∷ zs) (e, ne, back, out, (e', _, _, _, _)) fresh =
    (λ h. ground (arith, out, h, e'), λ h. ground (arith, fresh, h, back))
Linked-apart f g c p q (y ∷ ys) zs (e, ne, back, out, l) fresh =
    Linked-apart f g c y (f y) ys zs l out

pub Linked-no_loop :
    (f g : ℕ → ℕ) (c q : ℕ) (ys zs : List ℕ) → Linked f g 0 q (ys ++ c ∷ zs) → (f c ≢ c) × (g c ≢ c)
Linked-no_loop f g c q ys zs l =
    Linked-apart f g c 0 q ys zs l (Linked-nonzero f g 0 q (ys ++ c ∷ zs) l)

-- The element `c` is taken out from behind `p`: what stands before it leads to what stands behind.
module _ (f g f' g' : ℕ → ℕ) (c : ℕ) (forth : g c ≢ 0 → f' (g c) ≡ f c)
    (back : f c ≢ 0 → g' (f c) ≡ g c) (same_f : (a : ℕ) → g c ≢ a → f' a ≡ f a)
    (same_g : (a : ℕ) → f c ≢ a → g' a ≡ g a) where
  removed_here :
      (p : ℕ) (zs : List ℕ)
      → g c ≡ p
      → mem p zs ≡ false
      → Linked f g c (f c) zs
      → Linked f' g' p (f c) zs
  removed_here p [] e out l = l
  removed_here p (z ∷ zs) e out (ez, nz, bz, oz, l) = (
    ez,
    nz,
    subst (λ t. g' t ≡ p) ez (back (λ h. nz (sym ez ∙ h)) ∙ e),
    oz,
    Linked-frame f g f' g' z (f' z) zs
        (subst (λ t. Linked f g z t zs) (sym (same_f z (ground (arith, e, out)))) l)
        (λ a h. (same_f a (ground (arith, h, e, out)), same_g a (ground (arith, h, ez, oz)))),
  )

  removed_behind :
      (p q : ℕ) (ys zs : List ℕ)
      → Linked f g p q (ys ++ c ∷ zs)
      → mem p (ys ++ c ∷ zs) ≡ false
      → Linked f' g' p (if q == c then f c else q) (ys ++ zs)
  removed_behind p q [] zs (e, ne, bk, out, l) fresh =
      subst (λ t. Linked f' g' p t zs) (ground (arith, e))
        (removed_here p zs bk (ground (arith, fresh)) l)
  removed_behind p q (y ∷ ys) zs (e, ne, bk, out, l) fresh =
      let outs = mem-append y ys (c ∷ zs) in
      let other : y ≢ c = ground (arith, out, outs) in
      let off : f c ≢ y = ground (arith, behind f g c y (f y) ys zs l, ne, out, outs) in
      (
        ground (arith, e, other),
        ne,
        same_g y off ∙ bk,
        ground (arith, out, outs, mem-append y ys zs),
        subst (λ t. Linked f' g' y t (ys ++ zs)) (sym (leads l out outs ne))
            (removed_behind y (f y) ys zs l out),
      )
    where
      leads :
          Linked f g y (f y) (ys ++ c ∷ zs)
          → mem y (ys ++ c ∷ zs) ≡ false
          → mem y (ys ++ c ∷ zs) ≡ (mem y ys || mem y (c ∷ zs))
          → y ≢ 0
          → f' y ≡ (if f y == c then f c else f y)
      leads l out outs ne = elim (before f g c y (f y) ys zs l) [
        | inl (at_c, e) ↦ ground (arith, at_c, ap f' e, forth, e, ne)
        | inr (off_c, m) ↦ ground (arith, off_c, m, same_f y, out, outs)
      ]

  -- The element is taken out of a whole list, whose head `q` becomes `q'`.
  pub Linked-removed :
      (q q' : ℕ) (ys zs : List ℕ)
      → Linked f g 0 q (ys ++ c ∷ zs)
      → (g c ≡ 0 → q' ≡ f c)
      → (g c ≢ 0 → q' ≡ q)
      → Linked f' g' 0 q' (ys ++ zs)
  Linked-removed q q' ys zs l first other =
      subst (λ t. Linked f' g' 0 t (ys ++ zs)) (sym head) (removed_behind 0 q ys zs l none_zero)
    where
      none_zero : mem 0 (ys ++ c ∷ zs) ≡ false
      none_zero = Linked-nonzero f g 0 q (ys ++ c ∷ zs) l

      head : q' ≡ (if q == c then f c else q)
      head = elim (before f g c 0 q ys zs l) [
        | inl (at_c, e) ↦ ground (arith, at_c, first e)
        | inr (off_c, m) ↦ ground (arith, off_c, other, m, none_zero, mem-append 0 ys (c ∷ zs))
      ]
