-- ===== src/Receiver/Poll/Others.antt =====
-- receiver.go: another device's entry in the registry and its state.
use networkdevicereceiver.Base.{
  ◌≡◌, refl, ◌∙◌, Bool, Bool-cases, inl, inr, true, false, Option, none, some, leb, ◌||◌, ◌+◌, Str,
  str_eq, Floats,
}
use networkdevicereceiver.Base.Dict
use networkdevicereceiver.Base.Dict.{Dict, lookup-insert, lookup-erase}
use networkdevicereceiver.Report.Text.{Regexes, Addresses}
use networkdevicereceiver.Discovery.Registry.{Device, Registry, update, mark_failure, fail}
use networkdevicereceiver.Receiver.Poll.{
  DeviceState, Receiver, PollError, Step, after_failure, fail_poll, Ensured, ensured, not_ensured,
  keep_state,
}

-- Another device's entry and state are as they were.
pub record IsApart (fl : Floats) (R W : Type 0) (j : Str) (s t : Receiver fl R W) : Type 0 where
  pub entry : Dict.lookup j t.devices.devices ≡ Dict.lookup j s.devices.devices
  pub kept : Dict.lookup j t.states ≡ Dict.lookup j s.states

lookup-other {ℓ} :
    {V : Type ℓ} (k j : Str) (v : V) (m : Dict V)
    → str_eq k j ≡ false
    → Dict.lookup j (Dict.insert k v m) ≡ Dict.lookup j m
lookup-other k j v m other = rw (lookup-insert k j v m, other) refl

erase-other {ℓ} :
    {V : Type ℓ} (k j : Str) (m : Dict V)
    → str_eq k j ≡ false
    → Dict.lookup j (Dict.erase k m) ≡ Dict.lookup j m
erase-other k j m other = rw (lookup-erase k j m, other) refl

pub update-other :
    (k j : Str) (f : Device → Device) (o : Option Device) (r : Registry)
    → str_eq k j ≡ false
    → Dict.lookup j (update k f o r).devices ≡ Dict.lookup j r.devices
update-other k j f none r other = refl
update-other k j f (some d) r other = lookup-other k j (f d) r.devices other

fail-other :
    (k j : Str) (o : Option Device) (r : Registry)
    → str_eq k j ≡ false
    → Dict.lookup j (fail k o r).0.devices ≡ Dict.lookup j r.devices
unfolding fail
fail-other k j none r other = refl
fail-other k j (some dev) r other =
    elim (Bool-cases (dev.static || leb (dev.failures + 1) r.allowed_failures)) [
      | inl b ↦ rw b (lookup-other k j (record dev { failures = dev.failures + 1 }) r.devices other)
      | inr b ↦ rw b (erase-other k j r.devices other)
    ]

module _ (fl : Floats) (ad : Addresses) (re : Regexes) (W : Type 0) (j : Str)
    (start : Receiver fl re.R W) where
  abbrev pub Apart : Receiver fl re.R W → Type 0
  Apart t = IsApart fl re.R W j start t

  abbrev pub StepApart : Option (Step fl ad re W) → Type 0
  StepApart none = Unit
  StepApart (some (out, t)) = Apart t

  abbrev pub EnsuredApart : Option (Ensured fl ad re W) → Type 0
  EnsuredApart none = Unit
  EnsuredApart (some (ensured c st t)) = Apart t
  EnsuredApart (some (not_ensured e t)) = Apart t

module _ (fl : Floats) (ad : Addresses) (re : Regexes) (W : Type 0) (dev : Device) (j : Str)
    (other : str_eq dev.id j ≡ false) (start : Receiver fl re.R W) where
  pub keep_state-Apart :
      (st : DeviceState fl re.R) (t : Receiver fl re.R W)
      → Apart fl ad re W j start t
      → Apart fl ad re W j start (keep_state fl ad re W dev st t)
  keep_state-Apart st t h = record {
    entry = h.entry;
    kept = lookup-other dev.id j st t.states other ∙ h.kept;
  }

  pub fail_poll-Apart :
      (e : PollError) (t : Receiver fl re.R W)
      → Apart fl ad re W j start t
      → Apart fl ad re W j start (fail_poll fl ad re W dev e t).1
  unfolding fail_poll mark_failure
  fail_poll-Apart e t h =
      after (fail dev.id (Dict.lookup dev.id t.devices.devices) t.devices)
        (fail-other dev.id j _ t.devices other)
    where
      after :
          (r : Registry × Bool)
          → Dict.lookup j r.0.devices ≡ Dict.lookup j t.devices.devices
          → Apart fl ad re W j start (after_failure fl ad re W dev e t r).1
      after (r, false) k = record { entry = k ∙ h.entry; kept = h.kept }
      after (r, true) k = record {
        entry = k ∙ h.entry;
        kept = erase-other dev.id j t.states other ∙ h.kept;
      }
