-- ===== src/Receiver/Fleet/Registered.antt =====
-- receiver.go: the configured devices in the registry after `seedStaticDevices`.
use networkdevicereceiver.Base.{
  ℕ, suc, ◌≡◌, refl, sym, ap, ◌∙◌, subst, Bool, Bool-cases, inl, inr, true, Option, none, some,
  List, [], ◌∷◌, arith, All, Str, str_eq, str_eq_iff, str_eq_refl,
}
use networkdevicereceiver.Base.Dict
use networkdevicereceiver.Base.Dict.{Dict, lookup-insert, lookup-erase}
use networkdevicereceiver.Base.Sort.{place, sort}
use networkdevicereceiver.Profile.Compile.{StrSet}
use networkdevicereceiver.Config.{Config, DeviceConfig, Libraries, endpoint_at, parse_endpoint}
use networkdevicereceiver.Config.Validation.{validate}
use networkdevicereceiver.Config.Usable.{IsUsableDevice, validate-IsUsable}
use networkdevicereceiver.Discovery.Scan.{device_id}
use networkdevicereceiver.Discovery.Registry.{
  Device, Registry, upsert, upserted, refresh, remove, snapshot, values, by_id,
}
use networkdevicereceiver.Discovery.Registry.Keyed.{IsKeyed}
use networkdevicereceiver.Receiver.Fleet.{
  Fleet, static_device, seed_device, seed_each, seed_parsed, seed_static_devices, is_shadow,
  remove_if, remove_shadows, without_shadows,
}
use networkdevicereceiver.Receiver.Fleet.Unshadowed.{seed_each-seeds}

-- A host's device stands under its identifier, as a configured device at that address.
pub record IsRegistered (m : Dict Device) (host : Str) : Type 0 where
  pub device : Device
  pub found : Dict.lookup (device_id host []) m ≡ some device
  pub configured : device.static ≡ true
  pub there : device.address ≡ host

-- The device of each endpoint.
abbrev pub AreRegistered : Libraries → List DeviceConfig → Dict Device → Type 0
AreRegistered libs ds m =
    All
      (λ d.
        (host : Str) (port : ℕ)
        → parse_endpoint libs d.endpoint ≡ endpoint_at host port
        → IsRegistered m host)
      ds

module _ (host : Str) (port : ℕ) (profile : Str) (now : ℕ) (r : Registry) where
  upsert-registers : IsRegistered (upsert (static_device host port profile now) r).devices host
  unfolding upsert device_id
  upsert-registers = by_known (Dict.lookup host r.devices) refl
    where
      by_known :
          (o : Option Device)
          → Dict.lookup host r.devices ≡ o
          → IsRegistered
              (Dict.insert host (upserted (static_device host port profile now) o) r.devices)
              host
      by_known none e = record {
        device = upserted (static_device host port profile now) none;
        found = ground (
          arith,
          lookup-insert host host (upserted (static_device host port profile now) none) r.devices,
          str_eq_refl host,
        );
        configured = refl;
        there = refl;
      }
      by_known (some d) e =
          unfold refresh in
          record {
            device = refresh (static_device host port profile now) d;
            found = ground (
              arith,
              lookup-insert host host (refresh (static_device host port profile now) d) r.devices,
              str_eq_refl host,
            );
            configured = ground arith;
            there = refl;
          }

  -- A device that is registered stays so when another, or the same, is.
  upsert-IsRegistered :
      (j : Str)
      → IsRegistered r.devices j
      → IsRegistered (upsert (static_device host port profile now) r).devices j
  unfolding device_id
  upsert-IsRegistered j h = elim (Bool-cases (str_eq host j)) [
    | inl same ↦
        subst (IsRegistered (upsert (static_device host port profile now) r).devices)
          ((str_eq_iff host j).0 same) upsert-registers
    | inr other ↦
        unfold upsert in
        record {
          device = h.device;
          found = ground (
            arith,
            h.found,
            other,
            lookup-insert host j
                (upserted (static_device host port profile now) (Dict.lookup host r.devices))
                r.devices,
          );
          configured = h.configured;
          there = h.there;
        }
  ]

seed_each-registers :
    (libs : Libraries) (ds : List DeviceConfig) (i now : ℕ) (f : Fleet)
    → All (IsUsableDevice libs) ds
    → (g : Fleet) × (seed_each libs i ds now f ≡ (g, none))
      × ((j : Str) → IsRegistered f.registry.devices j → IsRegistered g.registry.devices j)
      × AreRegistered libs ds g.registry.devices
unfolding seed_each seed_parsed
seed_each-registers libs [] i now f h = (f, refl, (λ j k. k), tt)
seed_each-registers libs (d ∷ ds) i now f h =
    let f' = seed_device h.0.host h.0.port d.profile now f in
    let (g, e, stay, are) = seed_each-registers libs ds (suc i) now f' h.1 in
    rw h.0.reads (
      g,
      e,
      (λ j k. stay j (upsert-IsRegistered h.0.host h.0.port d.profile now f.registry j k)),
      (
        (λ host port parsed.
            let same : h.0.host ≡ host = cc parsed in
            stay host (
              subst (IsRegistered f'.registry.devices) same
                (upsert-registers h.0.host h.0.port d.profile now f.registry))),
        are,
      ),
    )

module _ {A : Type 0} (less : A → A → Bool) (P : A → Type 0) where
  place-All : (x : A) (ys : List A) → P x → All P ys → All P (place less x ys)
  unfolding place
  place-All x [] px h = (px, tt)
  place-All x (y ∷ ys) px h = elim (Bool-cases (less y x)) [
    | inl b ↦ rw b (h.0, place-All x ys px h.1)
    | inr b ↦ rw b (px, h)
  ]

  sort-All : (xs : List A) → All P xs → All P (sort less xs)
  unfolding sort
  sort-All [] h = tt
  sort-All (x ∷ xs) h = place-All x (sort less xs) h.0 (sort-All xs h.1)

-- No device of the registry but the one that stands under an identifier has it.
values-static :
    (k : Str) (m : Dict Device)
    → IsKeyed m
    → ((dev : Device) → Dict.lookup k m ≡ some dev → dev.static ≡ true)
    → All (λ d. d.id ≡ k → d.static ≡ true) (values m)
unfolding Dict.lookup
values-static k [] keyed h = tt
values-static k ((j, d) ∷ m) keyed h = (
  λ e. h d (ground (arith, (str_eq_iff j k).1 (sym keyed.0 ∙ e))),
  values-static k m keyed.2 (λ dev e. h dev (elim (Bool-cases (str_eq j k)) [
    | inl same ↦
        let q = subst (λ n. Dict.lookup n m ≡ none) ((str_eq_iff j k).0 same) keyed.1 in cc (q, e)
    | inr other ↦ rw other e
  ])),
)

remove_shadows-kept :
    (hosts : StrSet) (k : Str) (devs : List Device) (r : Registry)
    → All (λ d. d.id ≡ k → d.static ≡ true) devs
    → Dict.lookup k (remove_shadows hosts devs r).devices ≡ Dict.lookup k r.devices
unfolding remove_shadows
remove_shadows-kept hosts k [] r h = refl
remove_shadows-kept hosts k (d ∷ devs) r h =
    remove_shadows-kept hosts k devs (remove_if (is_shadow hosts d) d r) h.1
    ∙ elim (Bool-cases (is_shadow hosts d)) [
      | inl shadow ↦ rw shadow (
          unfold remove in
          lookup-erase d.id k r.devices ∙ elim (Bool-cases (str_eq d.id k)) [
            | inl same ↦
                let fixed : d.static ≡ true = h.0 ((str_eq_iff d.id k).0 same) in
                absurd (ground (arith, fixed, shadow))
            | inr other ↦ rw other
          ])
      | inr clear ↦ rw clear
    ]

remove_shadows-IsRegistered :
    (hosts : StrSet) (r : Registry) (host : Str)
    → IsKeyed r.devices
    → IsRegistered r.devices host
    → IsRegistered (remove_shadows hosts (snapshot r) r).devices host
unfolding snapshot
remove_shadows-IsRegistered hosts r host keyed h =
    let k = device_id host [] in
    let all =
      sort-All by_id (λ d. d.id ≡ k → d.static ≡ true) (values r.devices)
        (values-static k r.devices keyed (λ dev e.
          let q : h.device ≡ dev = cc (h.found, e) in
          subst (λ d. d.static ≡ true) q h.configured)) in
    record {
      device = h.device;
      found = remove_shadows-kept hosts k (sort by_id (values r.devices)) r all ∙ h.found;
      configured = h.configured;
      there = h.there;
    }

-- With a configuration without validation errors, the device of each of its endpoints is registered.
pub seed_static_devices-AreRegistered :
    (libs : Libraries) (c : Config) (now : ℕ) (r : Registry)
    → validate libs c ≡ []
    → IsKeyed r.devices
    → AreRegistered libs c.devices (seed_static_devices libs c now r).0.registry.devices
unfolding seed_static_devices
seed_static_devices-AreRegistered libs c now r valid keyed =
    let start : Fleet = record { static_hosts = []; registry = r } in
    let usable = (validate-IsUsable libs c valid).devices in
    let (g, e, keyed', _, _) = seed_each-seeds libs c.devices 0 now start usable keyed in
    let (g', e', _, are) = seed_each-registers libs c.devices 0 now start usable in
    let same : g' ≡ g = ap (λ p. p.0) (sym e' ∙ e) in
    let here = subst (λ f. AreRegistered libs c.devices f.registry.devices) same are in
    subst (λ o. AreRegistered libs c.devices (without_shadows o).0.registry.devices) (sym e)
      (still g keyed' c.devices here)
  where
    still :
        (g : Fleet)
        → IsKeyed g.registry.devices
        → (ds : List DeviceConfig) → AreRegistered libs ds g.registry.devices
        → AreRegistered libs ds (without_shadows (g, none)).0.registry.devices
    still g keyed' [] h = tt
    still g keyed' (d ∷ ds) h = (
      λ host port parsed.
          remove_shadows-IsRegistered g.static_hosts g.registry host keyed' (h.0 host port parsed),
      still g keyed' ds h.1,
    )
