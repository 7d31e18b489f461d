-- ===== src/Discovery/Registry/Keyed.antt =====
-- internal/discovery/registry.go: the identifiers in the registry.
use networkdevicereceiver.Base.{
  ℕ, ◌+◌, ◌≡◌, refl, sym, ◌∙◌, Bool-cases, inl, inr, ◌||◌, Option, none, some, List, [], ◌∷◌, arith,
  leb, Str, str_eq, str_eq_iff,
}
use networkdevicereceiver.Base.Dict
use networkdevicereceiver.Base.Dict.{Dict, lookup-insert, lookup-erase}
use networkdevicereceiver.Discovery.Registry.{
  Device, Registry, fail, mark_failure, mark_success, update, set_profile, upsert, upserted,
  refresh, remove, restore,
}

abbrev pub IsKeyed : Dict Device → Type 0
IsKeyed [] = Unit
IsKeyed ((k, dev) ∷ m) = (dev.id ≡ k) × (Dict.lookup k m ≡ none) × IsKeyed m

IsKeyed-insert :
    (k : Str) (dev : Device) (m : Dict Device)
    → dev.id ≡ k
    → IsKeyed m
    → IsKeyed (Dict.insert k dev m)
unfolding Dict.insert Dict.lookup
IsKeyed-insert k dev [] e h = (e, refl, tt)
IsKeyed-insert k dev ((j, d) ∷ m) e h = elim (Bool-cases (str_eq j k)) [
  | inl same ↦ rw same (e ∙ sym ((str_eq_iff j k).0 same), h.1, h.2)
  | inr other ↦ rw other (
    h.0,
    ground (arith, lookup-insert k j dev m, str_eq_iff j k, str_eq_iff k j, h.1),
    IsKeyed-insert k dev m e h.2,
  )
]

IsKeyed-erase : (k : Str) (m : Dict Device) → IsKeyed m → IsKeyed (Dict.erase k m)
unfolding Dict.erase
IsKeyed-erase k [] h = tt
IsKeyed-erase k ((j, d) ∷ m) h =
    let rest = IsKeyed-erase k m h.2 in
    elim (Bool-cases (str_eq j k)) [
      | inl same ↦ rw same rest
      | inr other ↦ rw other (h.0, ground (arith, lookup-erase k j m, h.1), rest)
    ]

-- A device is found under its own identifier.
pub id-lookup :
    (k : Str) (dev : Device) (m : Dict Device) → IsKeyed m → Dict.lookup k m ≡ some dev → dev.id ≡ k
unfolding Dict.lookup
id-lookup k dev [] h e = cc
id-lookup k dev ((j, d) ∷ m) h e = elim (Bool-cases (str_eq j k)) [
  | inl same ↦
      let found : some d ≡ some dev = rw same at e in cc (found, h.0, (str_eq_iff j k).0 same)
  | inr other ↦ id-lookup k dev m h.2 (rw other at e)
]

-- The calls that change the registry. `restore` is what `Load` does with what it read.
pub data Call : Type 0 where
  upserts : Device → Call
  removes : Str → Call
  profiles : Str → Str → Str → Call
  succeeds : Str → ℕ → Call
  fails : Str → Call
  restores : List Device → Call

unfoldable pub step : Registry → Call → Registry
step r (upserts dev) = upsert dev r
step r (removes id) = remove id r
step r (profiles id s p) = set_profile id s p r
step r (succeeds id at) = mark_success id at r
step r (fails id) = (mark_failure id r).0
step r (restores devs) = restore devs r

unfoldable pub run_calls : Registry → List Call → Registry
unfolding step
run_calls r [] = r
run_calls r (c ∷ cs) = run_calls (step r c) cs

pub upsert-IsKeyed :
    (dev : Device) (r : Registry) → IsKeyed r.devices → IsKeyed (upsert dev r).devices
unfolding upsert
upsert-IsKeyed dev r h =
    IsKeyed-insert dev.id (upserted dev (Dict.lookup dev.id r.devices)) r.devices
      (same_id (Dict.lookup dev.id r.devices) refl) h
  where
    same_id : (o : Option Device) → Dict.lookup dev.id r.devices ≡ o → (upserted dev o).id ≡ dev.id
    same_id none e = refl
    same_id (some d) e = unfold refresh in id-lookup dev.id d r.devices h e

update-IsKeyed :
    (id : Str) (f : Device → Device) (r : Registry) (o : Option Device)
    → ((dev : Device) → (f dev).id ≡ dev.id)
    → Dict.lookup id r.devices ≡ o
    → IsKeyed r.devices
    → IsKeyed (update id f o r).devices
update-IsKeyed id f r none keeps e h = h
update-IsKeyed id f r (some dev) keeps e h =
    IsKeyed-insert id (f dev) r.devices (keeps dev ∙ id-lookup id dev r.devices h e) h

fail-IsKeyed :
    (id : Str) (r : Registry) (o : Option Device)
    → Dict.lookup id r.devices ≡ o
    → IsKeyed r.devices
    → IsKeyed (fail id o r).0.devices
unfolding fail
fail-IsKeyed id r none e h = h
fail-IsKeyed id r (some dev) e h =
    elim (Bool-cases (dev.static || leb (dev.failures + 1) r.allowed_failures)) [
      | inl b ↦ rw b (IsKeyed-insert id _ r.devices (id-lookup id dev r.devices h e) h)
      | inr b ↦ rw b (IsKeyed-erase id r.devices h)
    ]

pub restore-IsKeyed :
    (devs : List Device) (r : Registry) → IsKeyed r.devices → IsKeyed (restore devs r).devices
unfolding restore
restore-IsKeyed [] r h = h
restore-IsKeyed (dev ∷ devs) r h =
    restore-IsKeyed devs _ (IsKeyed-insert dev.id dev r.devices refl h)

step-IsKeyed : (r : Registry) (c : Call) → IsKeyed r.devices → IsKeyed (step r c).devices
unfolding step
step-IsKeyed r (upserts dev) h = upsert-IsKeyed dev r h
step-IsKeyed r (removes id) h = unfold remove in IsKeyed-erase id r.devices h
step-IsKeyed r (profiles id s p) h =
    unfold set_profile in update-IsKeyed id _ r (Dict.lookup id r.devices) (λ d. refl) refl h
step-IsKeyed r (succeeds id at) h =
    unfold mark_success in update-IsKeyed id _ r (Dict.lookup id r.devices) (λ d. refl) refl h
step-IsKeyed r (fails id) h =
    unfold mark_failure in fail-IsKeyed id r (Dict.lookup id r.devices) refl h
step-IsKeyed r (restores devs) h = restore-IsKeyed devs r h

-- If each device stands once, under its own identifier, then it does so after any calls.
pub run_calls-IsKeyed :
    (r : Registry) (cs : List Call) → IsKeyed r.devices → IsKeyed (run_calls r cs).devices
unfolding run_calls
run_calls-IsKeyed r [] h = h
run_calls-IsKeyed r (c ∷ cs) h = run_calls-IsKeyed (step r c) cs (step-IsKeyed r c h)
