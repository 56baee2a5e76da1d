-- ===== src/Telemetry.antt =====
-- telemetry.c: the conversion of the process id, the test of the environment, and the creation of
-- the shared-memory file of counters. A C string is the list of its characters in front of NUL, and
-- a `char` array a map from indices. What the system answers is a record, and the calls that were
-- made are recorded, latest first.
pub mod Digits
pub mod Environ
pub mod Init
pub mod Name
pub mod Slots
use lzmalloc.Base.{
  ℕ, zero, suc, ◌+◌, ◌-◌, ◌*◌, ◌/◌, ◌%◌, Bool, true, false, not, ◌&&◌, ◌||◌, Option, none, some,
  List, [], ◌∷◌, ◌==◌, ltb, leb, if◌then◌else◌, update, length, get_or,
}
use lzmalloc.Config.{max_telemetry_slots}
use lzmalloc.Word.{add64}

abbrev pub equals_sign : ℕ
equals_sign = 61

abbrev pub digit_zero : ℕ
digit_zero = 48

-- `strncmp(s, t, n) == 0`
unfoldable pub strncmp_equal : ℕ → List ℕ → List ℕ → Bool
strncmp_equal zero s t = true
strncmp_equal (suc n) [] [] = true
strncmp_equal (suc n) [] (d ∷ t) = d == 0
strncmp_equal (suc n) (c ∷ s) [] = c == 0
strncmp_equal (suc n) (c ∷ s) (d ∷ t) =
    let rest = strncmp_equal n s t in if c == d then (if c == 0 then true else rest) else false

-- the loop of `lz_internal_has_env` over the environment
unfoldable pub any_env : List (List ℕ) → List ℕ → Bool
unfolding strncmp_equal
any_env [] key = false
any_env (env ∷ envs) key =
    if strncmp_equal (length key) env key && get_or env (length key) 0 == equals_sign
    then true
    else any_env envs key

-- `lz_internal_has_env`; `none` is a NULL `environ`
unfoldable pub has_env : Option (List (List ℕ)) → List ℕ → Bool
unfolding any_env
has_env none key = false
has_env (some envs) key = any_env envs key

-- `val > 0` of a 32-bit `int` in two's complement
abbrev pub is_positive : ℕ → Bool
is_positive val = ltb 0 val && ltb val 2147483648

-- the loop `while (val > 0)` on `temp`, for at most `fuel` rounds; `none` is out of fuel
unfoldable pub digits_loop : ℕ → ℕ → ℕ → (ℕ → ℕ) → Option (ℕ × (ℕ → ℕ))
digits_loop zero val i temp = if is_positive val then none else some (i, temp)
digits_loop (suc fuel) val i temp =
    let rest = digits_loop fuel (val / 10) (i + 1) (update temp i (val % 10 + digit_zero)) in
    if is_positive val then rest else some (i, temp)

-- the loop that copies `temp` in reverse order, from index `j`
unfoldable pub copy_reversed : ℕ → ℕ → ℕ → (ℕ → ℕ) → ℕ → (ℕ → ℕ) → ℕ → ℕ
copy_reversed zero j i temp buf chars = chars
copy_reversed (suc left) j i temp buf chars =
    copy_reversed left (j + 1) i temp buf (update chars (buf + j) (temp (i - 1 - j)))

-- as many rounds as an `int` has digits
abbrev pub max_digits : ℕ
max_digits = 10

-- `lz_itoa_fast`, with `buf` an index of the array `chars`: the length and the array
unfoldable pub itoa_fast : ℕ → ℕ → (ℕ → ℕ) → Option (ℕ × (ℕ → ℕ))
unfolding digits_loop copy_reversed
itoa_fast val buf chars =
    let digits =
      if val == 0
      then some (1, update (λ k. 0) 0 digit_zero)
      else digits_loop max_digits val 0 (λ k. 0) in
    elim digits [
      | none ↦ none
      | some (i, temp) ↦ some (i, update (copy_reversed i 0 i temp buf chars) (buf + i) 0)
    ]

pub data ShmCall : Type 0 where
  shm_open : (name : ℕ → ℕ) (fd : Option ℕ) → ShmCall
  ftruncate : (fd len : ℕ) → ShmCall
  mmap_shared : (fd len : ℕ) → ShmCall
  close : (fd : ℕ) → ShmCall
  shm_unlink : (name : ℕ → ℕ) → ShmCall

-- what the system answers; `none` is -1 or MAP_FAILED
pub record ShmAnswers : Type 0 where
  pub fd : Option ℕ
  pub truncated : Bool
  pub mapping : Option ℕ

-- the globals of telemetry.c, the counter `bytes_allocated` of each slot, and the calls made
pub record Telemetry : Type 0 where
  pub telemetry_matrix : ℕ
  pub shm_name : ℕ → ℕ
  pub slots : ℕ → ℕ
  pub calls : List ShmCall

-- `lz_telemetry_cleanup`
unfoldable pub telemetry_cleanup : Telemetry → Telemetry
telemetry_cleanup t =
    if t.shm_name 0 == 0 then t else record t { calls = shm_unlink t.shm_name ∷ t.calls }

abbrev pub telemetry_key : List ℕ
telemetry_key =
    76 ∷ 90 ∷ 77 ∷ 65 ∷ 76 ∷ 76 ∷ 79 ∷ 67 ∷ 95 ∷ 84 ∷ 69 ∷ 76 ∷ 69 ∷ 77 ∷ 69 ∷ 84 ∷ 82 ∷ 89 ∷ []

-- "/lzmalloc_telemetry_"
abbrev pub prefix : List ℕ
prefix =
    47 ∷ 108 ∷ 122 ∷ 109 ∷ 97 ∷ 108 ∷ 108 ∷ 111 ∷ 99 ∷ 95 ∷ 116 ∷ 101 ∷ 108 ∷ 101 ∷ 109 ∷ 101 ∷ 116
    ∷ 114 ∷ 121 ∷ 95 ∷ []

abbrev pub prefix_len : ℕ
prefix_len = 20

-- `memcpy(g_shm_name, prefix, prefix_len)`
abbrev pub copy_prefix : (ℕ → ℕ) → ℕ → ℕ
copy_prefix chars k = if ltb k prefix_len then get_or prefix k 0 else chars k

abbrev pub slot_size : ℕ
slot_size = 64

abbrev pub matrix_size : ℕ
matrix_size = slot_size * max_telemetry_slots

-- `memset(g_telemetry_matrix, 0, matrix_size)`
abbrev pub clear_slots : ℕ → (ℕ → ℕ) → ℕ → ℕ
clear_slots matrix slots a = if leb matrix a && ltb a (matrix + matrix_size) then 0 else slots a

-- the rest of `lz_telemetry_init`, with the name made
unfoldable pub open_matrix : ShmAnswers → Telemetry → Telemetry
open_matrix answers t =
    let opened = shm_open t.shm_name answers.fd ∷ t.calls in
    elim answers.fd [
      | none ↦ record t { calls = opened }
      | some fd ↦
          let cut = ftruncate fd matrix_size ∷ opened in
          let done = close fd ∷ mmap_shared fd matrix_size ∷ cut in
          if not answers.truncated
          then record t { calls = close fd ∷ cut }
          else elim answers.mapping [
            | none ↦ record t { telemetry_matrix = 0; calls = done }
            | some matrix ↦ record t {
              telemetry_matrix = matrix;
              slots = clear_slots matrix t.slots;
              calls = done;
            }
          ]
    ]

-- `lz_telemetry_init`; `none` is out of fuel
unfoldable pub telemetry_init :
    Option (List (List ℕ)) → ℕ → ShmAnswers → Telemetry → Option Telemetry
unfolding has_env itoa_fast open_matrix
telemetry_init environ pid answers t =
    if not (t.telemetry_matrix == 0)
    then some t
    else if not (has_env environ telemetry_key)
    then some t
    else elim (itoa_fast pid prefix_len (copy_prefix t.shm_name)) [
      | none ↦ none
      | some r ↦ some (open_matrix answers (record t { shm_name = r.1 }))
    ]
