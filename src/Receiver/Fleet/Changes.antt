-- ===== src/Receiver/Fleet/Changes.antt =====
-- receiver.go: what scans and polls do to the registry.
use networkdevicereceiver.Base.{
  ℕ, ◌≡◌, refl, sym, ◌∙◌, subst, Bool-cases, inl, inr, false, Option, none, some, List, [], ◌∷◌,
  arith, ◌||◌, leb, if◌then◌else◌, Str, str_eq, is_blank, ◌+◌,
}
use networkdevicereceiver.Base.Dict
use networkdevicereceiver.Base.Dict.{Dict, lookup-insert, lookup-erase}
use networkdevicereceiver.Profile.Compile.{StrSet}
use networkdevicereceiver.Discovery.Registry.{
  Device, Registry, upsert, upserted, refresh, set_profile, update, mark_success, mark_failure,
  fail,
}
use networkdevicereceiver.Receiver.Fleet.{
  Fleet, is_host, is_shadow, with_profile, register, register_found,
}
use networkdevicereceiver.Receiver.Fleet.Shadows.{IsUnshadowed}

-- The devices of a scan, and what a poll tells the registry.
pub data Change : Type 0 where
  finds : List Device → Change
  identifies : Str → Str → Str → Change
  succeeds : Str → ℕ → Change
  fails : Str → Change

module _ (hosts : StrSet) where
  insert-IsUnshadowed :
      (id : Str) (dev : Device) (m : Dict Device)
      → is_shadow hosts dev ≡ false
      → IsUnshadowed hosts m
      → IsUnshadowed hosts (Dict.insert id dev m)
  unfolding IsUnshadowed
  insert-IsUnshadowed id dev m clear h j d e =
      let e' : (if str_eq id j then some dev else Dict.lookup j m) ≡ some d =
        sym (lookup-insert id j dev m) ∙ e in
      elim (Bool-cases (str_eq id j)) [
        | inl same ↦
            let found : some dev ≡ some d = rw same at e' in
            let it : dev ≡ d = cc found in subst (λ x. is_shadow hosts x ≡ false) it clear
        | inr other ↦ h j d (rw other at e')
      ]

  erase-IsUnshadowed :
      (id : Str) (m : Dict Device) → IsUnshadowed hosts m → IsUnshadowed hosts (Dict.erase id m)
  unfolding IsUnshadowed
  erase-IsUnshadowed id m h j d e =
      let e' : (if str_eq id j then none else Dict.lookup j m) ≡ some d =
        sym (lookup-erase id j m) ∙ e in
      h j d (ground (arith, e'))

  upsert-IsUnshadowed :
      (dev : Device) (r : Registry)
      → is_host dev.address hosts ≡ false
      → IsUnshadowed hosts r.devices
      → IsUnshadowed hosts (upsert dev r).devices
  unfolding upsert
  upsert-IsUnshadowed dev r away h =
      insert-IsUnshadowed dev.id (upserted dev (Dict.lookup dev.id r.devices)) r.devices
        (clear (Dict.lookup dev.id r.devices)) h
    where
      clear : (o : Option Device) → is_shadow hosts (upserted dev o) ≡ false
      clear none = ground (arith, away)
      clear (some d) = unfold refresh in ground (arith, away)

  update-IsUnshadowed :
      (id : Str) (f : Device → Device) (r : Registry) (o : Option Device)
      → ((d : Device) → is_shadow hosts (f d) ≡ is_shadow hosts d)
      → Dict.lookup id r.devices ≡ o
      → IsUnshadowed hosts r.devices
      → IsUnshadowed hosts (update id f o r).devices
  unfolding IsUnshadowed
  update-IsUnshadowed id f r none keeps e h = h
  update-IsUnshadowed id f r (some d) keeps e h =
      insert-IsUnshadowed id (f d) r.devices (keeps d ∙ h id d e) h

  fail-IsUnshadowed :
      (id : Str) (r : Registry) (o : Option Device)
      → Dict.lookup id r.devices ≡ o
      → IsUnshadowed hosts r.devices
      → IsUnshadowed hosts (fail id o r).0.devices
  unfolding fail IsUnshadowed
  fail-IsUnshadowed id r none e h = h
  fail-IsUnshadowed id r (some dev) e h =
      elim (Bool-cases (dev.static || leb (dev.failures + 1) r.allowed_failures)) [
        | inl b ↦ rw b (
            insert-IsUnshadowed id (record dev { failures = dev.failures + 1 }) r.devices
              (h id dev e) h)
        | inr b ↦ rw b (erase-IsUnshadowed id r.devices h)
      ]

  module _ (match_profile : Str → Option Str) where
    with_profile-IsUnshadowed :
        (dev : Device) (o : Option Str) (r : Registry)
        → IsUnshadowed hosts r.devices
        → IsUnshadowed hosts (with_profile match_profile dev o r).devices
    with_profile-IsUnshadowed dev none r h = h
    with_profile-IsUnshadowed dev (some matched) r h =
        unfold set_profile in
        update-IsUnshadowed dev.id _ r (Dict.lookup dev.id r.devices) (λ d. refl) refl h

    register-IsUnshadowed :
        (dev : Device) (r : Registry)
        → IsUnshadowed hosts r.devices
        → IsUnshadowed hosts (register match_profile hosts dev r).devices
    register-IsUnshadowed dev r h = elim (Bool-cases (is_host dev.address hosts)) [
      | inl known ↦ rw known h
      | inr away ↦
          let added = upsert-IsUnshadowed dev r away h in
          elim (Bool-cases (is_blank dev.sys_object_id)) [
            | inl blank ↦ rw (away, blank) added
            | inr told ↦
                rw (away, told)
                  (with_profile-IsUnshadowed dev (match_profile dev.sys_object_id) (upsert dev r)
                    added)
          ]
    ]

module _ (match_profile : Str → Option Str) where
  unfoldable pub change : Change → Fleet → Fleet
  unfolding register_found
  change (finds devs) f = register_found match_profile devs f
  change (identifies id s p) f = record f { registry = set_profile id s p f.registry }
  change (succeeds id at) f = record f { registry = mark_success id at f.registry }
  change (fails id) f = record f { registry = (mark_failure id f.registry).0 }

  unfoldable pub changes : List Change → Fleet → Fleet
  unfolding change
  changes [] f = f
  changes (c ∷ cs) f = changes cs (change c f)

  abbrev pub IsClear : Fleet → Type 0
  IsClear f = IsUnshadowed f.static_hosts f.registry.devices

  register_found-IsClear :
      (devs : List Device) (f : Fleet) → IsClear f → IsClear (register_found match_profile devs f)
  unfolding register_found
  register_found-IsClear [] f h = h
  register_found-IsClear (dev ∷ devs) f h =
      register_found-IsClear devs _
        (register-IsUnshadowed f.static_hosts match_profile dev f.registry h)

  change-IsClear : (c : Change) (f : Fleet) → IsClear f → IsClear (change c f)
  unfolding change
  change-IsClear (finds devs) f h = register_found-IsClear devs f h
  change-IsClear (identifies id s p) f h =
      unfold set_profile in
      update-IsUnshadowed f.static_hosts id _ f.registry (Dict.lookup id f.registry.devices)
        (λ d. refl) refl h
  change-IsClear (succeeds id at) f h =
      unfold mark_success in
      update-IsUnshadowed f.static_hosts id _ f.registry (Dict.lookup id f.registry.devices)
        (λ d. refl) refl h
  change-IsClear (fails id) f h =
      unfold mark_failure in
      fail-IsUnshadowed f.static_hosts id f.registry (Dict.lookup id f.registry.devices) refl h

  pub changes-IsClear : (cs : List Change) (f : Fleet) → IsClear f → IsClear (changes cs f)
  unfolding changes
  changes-IsClear [] f h = h
  changes-IsClear (c ∷ cs) f h = changes-IsClear cs (change c f) (change-IsClear c f h)

pub changes-static_hosts :
    (match_profile : Str → Option Str) (cs : List Change) (f : Fleet)
    → (changes match_profile cs f).static_hosts ≡ f.static_hosts
unfolding changes change
changes-static_hosts match_profile [] f = refl
changes-static_hosts match_profile (finds devs ∷ cs) f =
    changes-static_hosts match_profile cs (register_found match_profile devs f) ∙ found devs f
  where
    found :
        (devs : List Device) (f : Fleet)
        → (register_found match_profile devs f).static_hosts ≡ f.static_hosts
    found [] f = refl
    found (dev ∷ devs) f = found devs _
changes-static_hosts match_profile (identifies id s p ∷ cs) f =
    changes-static_hosts match_profile cs _
changes-static_hosts match_profile (succeeds id at ∷ cs) f = changes-static_hosts match_profile cs _
changes-static_hosts match_profile (fails id ∷ cs) f = changes-static_hosts match_profile cs _
