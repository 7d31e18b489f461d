-- ===== src/Receiver/Schedule/Slots.antt =====
-- receiver.go: the slots of a device in the collection interval.
use networkdevicereceiver.Base.{
  ℕ, zero, suc, ◌+◌, ◌-◌, ◌*◌, ◌<◌, ◌≤◌, ◌≡◌, Bool-cases, inl, inr, arith, ltb, Str,
}
use networkdevicereceiver.Receiver.Schedule.{offset_for, advance_for, advance}

-- The next slot of the phase of `due` after now.
abbrev pub IsNextSlot : ℕ → ℕ → ℕ → ℕ → Type 0
IsNextSlot interval due now next =
    (now < next) × (next ≤ now + interval) × (k : ℕ) × (next ≡ due + k * interval)

advance_for-slot :
    (f interval due now : ℕ)
    → 0 < interval
    → due ≤ now + interval
    → now < due + f
    → IsNextSlot interval due now (advance_for f interval due now)
unfolding advance_for
advance_for-slot zero interval due now positive early enough = (omega arith, early, 0, omega arith)
advance_for-slot (suc f) interval due now positive early enough = elim (Bool-cases (ltb now due)) [
  | inl past ↦ rw past (ground arith, early, 0, omega arith)
  | inr waits ↦
      let (after, within, k, e) =
        advance_for-slot f interval (due + interval) now positive (ground arith) (ground arith) in
      rw waits (after, within, k + 1, grind arith)
]

-- With a positive interval, the loop that advances a slot that has come ends: at the first slot of the same
-- phase that is later than now.
pub advance-slot :
    (interval due now : ℕ)
    → 0 < interval
    → due ≤ now
    → IsNextSlot interval due now (advance interval due now)
unfolding advance
advance-slot interval due now positive come =
    advance_for-slot (suc now - due) interval due now positive (omega arith) (omega arith)

-- The first slot of a device is within one interval, if that is positive.
pub offset_for-bound : (id : Str) (interval : ℕ) → 0 < interval → offset_for id interval < interval
unfolding offset_for
offset_for-bound id interval positive = ground (arith)
