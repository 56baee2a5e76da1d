-- ===== src/Telemetry/Slots.antt =====
-- The slots of the matrix of counters, as threads ask for them.
use lzmalloc.Base.{ℕ, ◌+◌, ◌≤◌, ◌≡◌, ◌≢◌, ◌⊎◌, ◌↔◌, arith}
use lzmalloc.Config.{max_telemetry_slots}
use lzmalloc.Telemetry.{matrix_size, slot_size}
use lzmalloc.Thread.{Process, telemetry_get_slot}
use lzmalloc.Word.{word_mod}

-- a slot lies in the matrix
abbrev pub InMatrix : ℕ → ℕ → Type 0
InMatrix matrix slot = (matrix ≤ slot) × (slot + slot_size ≤ matrix + matrix_size)

abbrev pub Apart : ℕ → ℕ → Type 0
Apart slot slot' = (slot + slot_size ≤ slot') ⊎ (slot' + slot_size ≤ slot)

-- The slots that `lz_telemetry_get_slot` hands out lie within the mapping, whose length is that of
-- all slots, and those of two indices do not overlap; it gives NULL exactly when telemetry is off
-- or the index is too large. The mapping ends below 2^64.
pub telemetry_get_slot-Apart :
    (i j : ℕ) (p : Process)
    → p.telemetry_matrix + matrix_size ≤ word_mod
    → i ≢ j
    → ((telemetry_get_slot i p ≡ 0) ↔ ((p.telemetry_matrix ≡ 0) ⊎ (max_telemetry_slots ≤ i)))
      × ((telemetry_get_slot i p ≡ 0) ⊎ InMatrix p.telemetry_matrix (telemetry_get_slot i p))
      × ((telemetry_get_slot i p ≡ 0)
          ⊎ (telemetry_get_slot j p ≡ 0)
          ⊎ Apart (telemetry_get_slot i p) (telemetry_get_slot j p))
unfolding telemetry_get_slot
telemetry_get_slot-Apart i j p fits ne = (ground arith, ground arith, ground arith)
