-- ===== src/Discovery/Registry/Failures.antt =====
-- internal/discovery/registry.go: when the registry forgets a device.
use networkdevicereceiver.Base.{
  ℕ, zero, suc, ◌+◌, ◌≡◌, ◌∙◌, Bool-cases, inl, inr, true, ◌||◌, Option, none, some, arith, leb,
  if◌then◌else◌, Str, str_eq_refl,
}
use networkdevicereceiver.Base.Dict.{lookup-insert, lookup-erase}
use networkdevicereceiver.Discovery.Registry.{Device, Registry, get, fail, mark_failure}

-- n failed polls in a row
pub failing : ℕ → Str → Registry → Registry
failing zero id r = r
failing (suc n) id r = failing n id (mark_failure id r).0

get-mark_failure :
    (id : Str) (r : Registry) (dev : Device)
    → get id r ≡ some dev
    → get id (mark_failure id r).0 ≡ (
        if dev.static || leb (dev.failures + 1) r.allowed_failures
        then some (record dev { failures = dev.failures + 1 })
        else none)
unfolding get mark_failure
get-mark_failure id r dev h =
    rw (h, fail)
      (elim (Bool-cases (dev.static || leb (dev.failures + 1) r.allowed_failures)) [
        | inl b ↦ rw b (rw (lookup-insert, str_eq_refl))
        | inr b ↦ rw b (rw (lookup-erase, str_eq_refl))
      ])

allowed-mark_failure :
    (id : Str) (r : Registry) → (mark_failure id r).0.allowed_failures ≡ r.allowed_failures
unfolding mark_failure fail
allowed-mark_failure id r = ground arith

missing-failing :
    (n : ℕ) (id : Str) (r : Registry) → get id r ≡ none → get id (failing n id r) ≡ none
unfolding failing
missing-failing zero id r h = h
missing-failing (suc n) id r h = missing-failing n id (mark_failure id r).0 (step h)
  where
    step : get id r ≡ none → get id (mark_failure id r).0 ≡ none
    step e = unfold get mark_failure in rw (e, fail) e

-- What is left of a device after n failed polls: it is kept with its failures counted while it is
-- static or within the budget, and it is gone otherwise.
abbrev pub after_failures : ℕ → ℕ → Device → Option Device
after_failures n allowed dev =
    if dev.static || leb (dev.failures + n) allowed
    then some (record dev { failures = dev.failures + n })
    else none

counted :
    (n allowed : ℕ) (dev : Device)
    → after_failures n allowed (record dev { failures = dev.failures + 1 })
      ≡ after_failures (suc n) allowed dev
counted n allowed dev = ground arith

-- A registered device that is static or within the budget of failures: after n more failed polls in
-- a row it is there exactly if it is static or its failures with these n are within the budget, and
-- its record then differs only in the count.
pub get-failing :
    (n : ℕ) (id : Str) (r : Registry) (dev : Device)
    → get id r ≡ some dev
    → (dev.static || leb dev.failures r.allowed_failures) ≡ true
    → get id (failing n id r) ≡ after_failures n r.allowed_failures dev
unfolding failing
get-failing zero id r dev h k = ground arith
get-failing (suc n) id r dev h k =
    elim (Bool-cases (dev.static || leb (dev.failures + 1) r.allowed_failures)) [
      | inl kept ↦
          let dev' = record dev { failures = dev.failures + 1 } in
          let here : get id (mark_failure id r).0 ≡ some dev' =
            ground (arith, get-mark_failure id r dev h) in
          let same = allowed-mark_failure id r in
          let rest = get-failing n id (mark_failure id r).0 dev' here (rw same kept) in
          rest ∙ rw same (counted n r.allowed_failures dev)
      | inr dropped ↦
          let gone : get id (mark_failure id r).0 ≡ none =
            ground (arith, get-mark_failure id r dev h) in
          missing-failing n id (mark_failure id r).0 gone ∙ ground arith
    ]
