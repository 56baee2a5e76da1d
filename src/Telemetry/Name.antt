-- ===== src/Telemetry/Name.antt =====
-- The name of the shared-memory file: a prefix and the process id.
use lzmalloc.Base.{
  ℕ, ◌+◌, ◌≤◌, ◌<◌, ◌^◌, ◌≡◌, refl, arith, true, some, none, Option, List, ◌==◌, get_or, sym, ap,
  ◌∙◌, subst, lt→ltb, ==_iff,
}
use native.Mathlib.Decide.{dec_lt}
use lzmalloc.Telemetry.{
  Telemetry, ShmAnswers, telemetry_init, open_matrix, has_env, telemetry_key, prefix, prefix_len,
  copy_prefix, digit_zero,
}
use lzmalloc.Telemetry.Digits.{IsDecimal, itoa_fast-IsDecimal, decimal}

-- the size of `g_shm_name`
abbrev pub shm_name_size : ℕ
shm_name_size = 128

-- `name` is the string of the prefix and the digits of `pid`.
pub record IsName (pid : ℕ) (name : ℕ → ℕ) : Type 0 where
  pub prefixed : (k : ℕ) → k < prefix_len → name k ≡ get_or prefix k 0
  pub len : ℕ
  pub value : decimal name prefix_len len ≡ pid
  pub digits : (k : ℕ) → k < len → digit_zero ≤ name (prefix_len + k)
  pub ended : name (prefix_len + len) ≡ 0
  pub fits : prefix_len + len < shm_name_size

IsDecimal-IsName :
    (pid : ℕ) (chars : ℕ → ℕ) (r : ℕ × (ℕ → ℕ))
    → IsDecimal pid prefix_len (copy_prefix chars) r
    → IsName pid r.1
IsDecimal-IsName pid chars r d = record {
  prefixed = λ k lt. d.frame k lt ∙ rw (lt→ltb k prefix_len lt) refl;
  len = r.0;
  value = d.value;
  digits = λ k lt. (d.digits k lt).0;
  ended = d.ended;
  fits = omega (arith, d.length);
}

-- two numbers with one name are one number: NUL ends both at the same place
IsName-len : {p q : ℕ} {name : ℕ → ℕ} (n : IsName p name) (m : IsName q name) → n.len ≤ m.len
IsName-len n m = elim (dec_lt m.len n.len) [
  | yes lt ↦ absurd (omega (arith, n.digits m.len lt, m.ended))
  | no ge ↦ omega (arith, ge)
]

pub IsName-unique : {p q : ℕ} {name : ℕ → ℕ} → IsName p name → IsName q name → p ≡ q
IsName-unique {name} n m =
    let same : n.len ≡ m.len = omega (arith, IsName-len n m, IsName-len m n) in
    sym n.value ∙ ap (decimal name prefix_len) same ∙ m.value

open_matrix_name :
    (answers : ShmAnswers) (t : Telemetry) → (open_matrix answers t).shm_name ≡ t.shm_name
unfolding open_matrix
open_matrix_name answers t = ground arith

-- the path on which a name is made
pub telemetry_init_run :
    (environ : Option (List (List ℕ))) (pid : ℕ) (answers : ShmAnswers) (t : Telemetry)
    → t.telemetry_matrix ≡ 0
    → has_env environ telemetry_key ≡ true
    → pid < 2 ^ 31
    → (name : ℕ → ℕ) × (telemetry_init environ pid answers t
        ≡ some (open_matrix answers (record t { shm_name = name })))
      × IsName pid name
unfolding telemetry_init
telemetry_init_run environ pid answers t off set h =
    let (r, e, d) = itoa_fast-IsDecimal pid prefix_len (copy_prefix t.shm_name) h in
    let z : (t.telemetry_matrix == 0) ≡ true = (==_iff _ _).1 off in
    (r.1, rw (z, set, e) refl, IsDecimal-IsName pid t.shm_name r d)

shm_name_or : (ℕ → ℕ) → Option Telemetry → ℕ → ℕ
shm_name_or name none = name
shm_name_or name (some t) = t.shm_name

telemetry_init-IsName :
    (environ : Option (List (List ℕ))) (pid : ℕ) (answers : ShmAnswers) (t u : Telemetry)
    → t.telemetry_matrix ≡ 0
    → has_env environ telemetry_key ≡ true
    → pid < 2 ^ 31
    → telemetry_init environ pid answers t ≡ some u
    → IsName pid u.shm_name
unfolding shm_name_or
telemetry_init-IsName environ pid answers t u off set h e =
    let (name, q, n) = telemetry_init_run environ pid answers t off set h in
    let named : name ≡ u.shm_name =
      sym (open_matrix_name answers (record t { shm_name = name }))
      ∙ ap (shm_name_or name) (sym q ∙ e) in
    subst (IsName pid) named n

-- Two processes that create their files of counters name them differently: if the names are equal,
-- so are the process ids, which are numbers below 2^31. In both the telemetry was off and the
-- environment turns it on.
pub telemetry_init_names :
    (environ environ' : Option (List (List ℕ))) (pid pid' : ℕ) (answers answers' : ShmAnswers)
    (t t' u u' : Telemetry)
    → t.telemetry_matrix ≡ 0
    → t'.telemetry_matrix ≡ 0
    → has_env environ telemetry_key ≡ true
    → has_env environ' telemetry_key ≡ true
    → pid < 2 ^ 31
    → pid' < 2 ^ 31
    → telemetry_init environ pid answers t ≡ some u
    → telemetry_init environ' pid' answers' t' ≡ some u'
    → u.shm_name ≡ u'.shm_name
    → pid ≡ pid'
telemetry_init_names environ environ' pid pid' answers answers' t t' u u' off off' set set' h h' e
      e' same =
    IsName-unique (telemetry_init-IsName environ pid answers t u off set h e) (
      subst (IsName pid') (sym same)
        (telemetry_init-IsName environ' pid' answers' t' u' off' set' h' e'))
