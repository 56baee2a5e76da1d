-- ===== src/Telemetry/Environ.antt =====
-- The tests of the environment for a variable.
use lzmalloc.Base.{
  ℕ, suc, ◌≡◌, ◌≢◌, ◌↔◌, ◌⊎◌, inl, inr, refl, arith, true, ◌&&◌, Option, none, some, List, [], ◌∷◌,
  ◌++◌, length, get_or, ◌==◌, Bool-cases, ==_iff, ap, ap₂,
}
use lzmalloc.Telemetry.{strncmp_equal, any_env, has_env, equals_sign}

-- no character of a C string is NUL
abbrev pub NoNul : List ℕ → Type 0
NoNul [] = Unit
NoNul (c ∷ s) = (c ≢ 0) × NoNul s

-- an entry of the environment sets a variable
abbrev pub Sets : List (List ℕ) → List ℕ → Type 0
Sets [] key = ⊥
Sets (env ∷ envs) key = ((value : List ℕ) × (env ≡ key ++ equals_sign ∷ value)) ⊎ Sets envs key

strncmp_equal-append :
    (key t : List ℕ) → NoNul key → strncmp_equal (length key) (key ++ t) key ≡ true
unfolding strncmp_equal
strncmp_equal-append [] t n = refl
strncmp_equal-append (c ∷ key) t (n, ns) = ground (arith, strncmp_equal-append key t ns)

get_or-append : (key t : List ℕ) → get_or (key ++ t) (length key) 0 ≡ get_or t 0 0
get_or-append [] t = refl
get_or-append (c ∷ key) t = get_or-append key t

-- an entry that passes the test
passed :
    (env key : List ℕ)
    → NoNul key
    → strncmp_equal (length key) env key ≡ true
    → get_or env (length key) 0 ≡ equals_sign
    → (value : List ℕ) × (env ≡ key ++ equals_sign ∷ value)
unfolding strncmp_equal
passed [] [] n e g = absurd (omega (arith, g))
passed (c ∷ env) [] n e g = (env, ap (λ x. x ∷ env) g)
passed [] (d ∷ key) (n, ns) e g = absurd (ground (arith, e, n))
passed (c ∷ env) (d ∷ key) (n, ns) e g =
    let (value, q) = passed env key ns (ground (arith, e, n)) g in
    let same : c ≡ d = ground (arith, e) in (value, ap₂ (λ x xs. x ∷ xs) same q)

any_env_sound :
    (envs : List (List ℕ)) (key : List ℕ) → NoNul key → any_env envs key ≡ true → Sets envs key
unfolding any_env
any_env_sound [] key n e = absurd (ground (arith, e))
any_env_sound (env ∷ envs) key n e = elim (Bool-cases (strncmp_equal (length key) env key)) [
  | inr f ↦ inr (any_env_sound envs key n (ground (arith, e, f)))
  | inl f ↦ elim (Bool-cases (get_or env (length key) 0 == equals_sign)) [
    | inr g ↦ inr (any_env_sound envs key n (ground (arith, e, g)))
    | inl g ↦ inl (passed env key n f ((==_iff _ _).0 g))
  ]
]

any_env_complete :
    (envs : List (List ℕ)) (key : List ℕ) → NoNul key → Sets envs key → any_env envs key ≡ true
unfolding any_env
any_env_complete [] key n s = absurd s
any_env_complete (env ∷ envs) key n (inl (value, q)) =
    rw
      (q, strncmp_equal-append key (equals_sign ∷ value) n, get_or-append key (equals_sign ∷ value))
      refl
any_env_complete (env ∷ envs) key n (inr later) = ground (arith, any_env_complete envs key n later)

-- the variable is set in the environment, if there is one
abbrev pub IsDefined : Option (List (List ℕ)) → List ℕ → Type 0
IsDefined none key = ⊥
IsDefined (some envs) key = Sets envs key

-- `lz_internal_has_env` finds a variable exactly when some entry of the environment is its name, an
-- equals sign and a value; a name of which it is only a prefix, or a value that contains it, does
-- not count. The name has no NUL in it.
pub has_env_iff :
    (environ : Option (List (List ℕ))) (key : List ℕ)
    → NoNul key
    → (has_env environ key ≡ true) ↔ IsDefined environ key
unfolding has_env
has_env_iff none key n = (λ e. ground (arith, e), λ s. absurd s)
has_env_iff (some envs) key n = (any_env_sound envs key n, any_env_complete envs key n)

-- a comparison with one more character
pub strncmp_equal-snoc :
    (s key : List ℕ) (c : ℕ)
    → NoNul key
    → c ≢ 0
    → strncmp_equal (suc (length key)) s (key ++ c ∷ [])
      ≡ (strncmp_equal (length key) s key && get_or s (length key) 0 == c)
unfolding strncmp_equal
strncmp_equal-snoc [] [] c n h = ground arith
strncmp_equal-snoc (x ∷ s) [] c n h = ground arith
strncmp_equal-snoc [] (d ∷ key) c (n, ns) h = ground arith
strncmp_equal-snoc (x ∷ s) (d ∷ key) c (n, ns) h = ground (arith, strncmp_equal-snoc s key c ns h)
