-- ===== src/Receiver/Schedule/Due.antt =====
-- receiver.go: what happens to a device whose slot has come.
use networkdevicereceiver.Base.{
  ℕ, ◌<◌, ◌≤◌, ◌≡◌, refl, Bool, Bool-cases, false, ◌&&◌, some, inl, inr, [], ◌∷◌, arith, ltb,
  if◌then◌else◌, Str, str_eq_refl,
}
use networkdevicereceiver.Base.Dict
use networkdevicereceiver.Base.Dict.{lookup-insert, lookup-erase}
use networkdevicereceiver.Receiver.Schedule.{
  Schedule, look, send, busy, is_idle, step, steps, advance,
}
use networkdevicereceiver.Receiver.Schedule.Slots.{IsNextSlot, advance-slot}

module _ (configured interval : ℕ) where
  abbrev pub looked_and_sent : ℕ → Str → Bool → Schedule → Schedule
  looked_and_sent now id ready s = steps configured interval (look now id ∷ send ready ∷ []) s

  -- With a positive interval, a device that is due and whose last poll is over is polled by an idle poller, or,
  -- when none waits for a job, not polled and not marked; its due time is then the next slot of its phase.
  pub steps-due :
      (now : ℕ) (id : Str) (due : ℕ) (ready : Bool) (s : Schedule)
      → 0 < interval
      → s.sending ≡ []
      → Dict.lookup id s.next_due ≡ some due
      → due ≤ now
      → busy id s ≡ false
      → let s' = looked_and_sent now id ready s in
        (s'.polling
          ≡ (if ready && is_idle configured interval s then id ∷ s.polling else s.polling))
        × (busy id s' ≡ (ready && is_idle configured interval s))
        × (next : ℕ) × (Dict.lookup id s'.next_due ≡ some next)
        × IsNextSlot interval due now next
  unfolding steps step
  steps-due now id due ready s positive idle known come free =
      let late : ltb now due ≡ false = ground arith in
      rw (idle, known, late, free)
        (elim (Bool-cases (ready && is_idle configured interval s)) [
          | inl taken ↦ rw taken (
            refl,
            rw (lookup-insert, str_eq_refl id) refl,
            advance interval due now,
            rw (lookup-insert, str_eq_refl id) refl,
            advance-slot interval due now positive come,
          )
          | inr skipped ↦ rw skipped (
            refl,
            rw (lookup-erase, str_eq_refl id) refl,
            advance interval due now,
            rw (lookup-insert, str_eq_refl id) refl,
            advance-slot interval due now positive come,
          )
        ])
