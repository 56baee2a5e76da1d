-- ===== src/Telemetry/Init.antt =====
-- `lz_telemetry_init`: each path closes what it opened, and the name of the file is the process's own.
use lzmalloc.Base.{
  if◌then◌else◌, ℕ, suc, ◌+◌, ◌≤◌, ◌<◌, ◌^◌, ◌≡◌, ◌≢◌, ◌⊎◌, refl, arith, Bool, true, false, not,
  ◌&&◌, ◌||◌, Option, none, some, List, [], ◌∷◌, ◌==◌, Bool-cases, inl, inr, ==_iff,
}
use lzmalloc.Telemetry.{
  Telemetry, ShmAnswers, ShmCall, shm_open, close, telemetry_init, open_matrix, has_env,
  telemetry_key, matrix_size,
}
use lzmalloc.Telemetry.Name.{telemetry_init_run}

-- Of the descriptor `fd`, how often these calls opened it and how often they closed it.
abbrev pub opened : ℕ → List ShmCall → ℕ
opened fd [] = 0
opened fd (shm_open name (some d) ∷ calls) =
    if d == fd then suc (opened fd calls) else opened fd calls
opened fd (call ∷ calls) = opened fd calls

abbrev pub closed : ℕ → List ShmCall → ℕ
closed fd [] = 0
closed fd (close d ∷ calls) = if d == fd then suc (closed fd calls) else closed fd calls
closed fd (call ∷ calls) = closed fd calls

-- the system grants all that is asked
abbrev pub granted : ShmAnswers → Bool
granted answers = elim answers.fd [
  | none ↦ false
  | some fd ↦
      answers.truncated && elim answers.mapping [ none ↦ false | some matrix ↦ not (matrix == 0) ]
]

-- What `lz_telemetry_init` makes of `t`.
pub record IsInit (environ : Option (List (List ℕ))) (answers : ShmAnswers) (t t' : Telemetry)
    : Type 0 where
  pub balanced :
      (fd : ℕ) → opened fd t'.calls + closed fd t.calls ≡ closed fd t'.calls + opened fd t.calls
  pub on :
      not (t'.telemetry_matrix == 0)
      ≡ (not (t.telemetry_matrix == 0) || (has_env environ telemetry_key && granted answers))
  pub cleared :
      (a : ℕ)
      → t.telemetry_matrix ≡ 0
      → t'.telemetry_matrix ≢ 0
      → t'.telemetry_matrix ≤ a
      → a < t'.telemetry_matrix + matrix_size
      → t'.slots a ≡ 0
  pub kept : t.telemetry_matrix ≢ 0 → t' ≡ t

open_matrix_lem :
    (environ : Option (List (List ℕ))) (answers : ShmAnswers) (t : Telemetry) (name : ℕ → ℕ)
    → t.telemetry_matrix ≡ 0
    → has_env environ telemetry_key ≡ true
    → IsInit environ answers t (open_matrix answers (record t { shm_name = name }))
unfolding open_matrix
open_matrix_lem environ answers t name off e = record {
  balanced = λ fd. ground (arith, off, e);
  on = ground (arith, off, e);
  cleared = λ a z n low high. ground (arith, off, e);
  kept = λ n. absurd (n off);
}

untouched :
    (environ : Option (List (List ℕ))) (answers : ShmAnswers) (t : Telemetry)
    → (t.telemetry_matrix ≢ 0) ⊎ (has_env environ telemetry_key ≡ false)
    → IsInit environ answers t t
untouched environ answers t h = record {
  balanced = λ fd. omega arith;
  on = ground (arith, h);
  cleared = λ a z n low high. absurd (n z);
  kept = λ n. refl;
}

-- `lz_telemetry_init` returns on every path, for a process id below 2^31. If telemetry was on,
-- nothing changes. Otherwise it is on afterwards exactly when the environment sets
-- LZMALLOC_TELEMETRY and the system gives the file, its length and a mapping; the counters in the
-- mapping are then 0. The call closes each descriptor as often as it opens it, also where the
-- system refuses.
pub telemetry_init-IsInit :
    (environ : Option (List (List ℕ))) (pid : ℕ) (answers : ShmAnswers) (t : Telemetry)
    → pid < 2 ^ 31
    → (t' : Telemetry) × (telemetry_init environ pid answers t ≡ some t')
      × IsInit environ answers t t'
unfolding telemetry_init
telemetry_init-IsInit environ pid answers t h = elim (Bool-cases (t.telemetry_matrix == 0)) [
  | inr on ↦ (t, rw on refl, untouched environ answers t (inl (ground (arith, on))))
  | inl off ↦ elim (Bool-cases (has_env environ telemetry_key)) [
    | inr e ↦ (t, rw (off, e) refl, untouched environ answers t (inr e))
    | inl e ↦
        let zero : t.telemetry_matrix ≡ 0 = (==_iff _ _).0 off in
        let (name, q, n) = telemetry_init_run environ pid answers t zero e h in
        (
          open_matrix answers (record t { shm_name = name }),
          q,
          open_matrix_lem environ answers t name zero e,
        )
  ]
]
