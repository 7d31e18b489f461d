-- ===== src/Receiver/Fleet/Unshadowed.antt =====
-- receiver.go: the registry between the seeding of the configured devices and the end.
use networkdevicereceiver.Base.{
  ℕ, suc, ◌≡◌, refl, sym, subst, true, Option, none, List, [], ◌∷◌, arith, All, Str, str_eq_iff,
}
use networkdevicereceiver.Base.Dict
use networkdevicereceiver.Base.Dict.{Dict, lookup-insert, lookup-erase}
use networkdevicereceiver.Profile.Compile.{StrSet}
use networkdevicereceiver.Config.{Config, DeviceConfig, Libraries, endpoint_at, parse_endpoint}
use networkdevicereceiver.Config.Validation.{validate}
use networkdevicereceiver.Config.Usable.{IsUsableDevice, validate-IsUsable}
use networkdevicereceiver.Discovery.Registry.{Registry, snapshot}
use networkdevicereceiver.Discovery.Registry.Keyed.{IsKeyed, upsert-IsKeyed}
use networkdevicereceiver.Receiver.Fleet.{
  Fleet, is_host, static_device, seed_device, seed_each, seed_parsed, seed_static_devices,
  remove_shadows,
}
use networkdevicereceiver.Receiver.Fleet.Shadows.{IsUnshadowed, remove_shadows-IsUnshadowed}
use networkdevicereceiver.Receiver.Fleet.Changes.{
  Change, changes, changes-IsClear, changes-static_hosts,
}

-- The host of each endpoint.
abbrev pub AreHosts : Libraries → List DeviceConfig → StrSet → Type 0
AreHosts libs ds hosts =
    All
      (λ d.
        (host : Str) (port : ℕ)
        → parse_endpoint libs d.endpoint ≡ endpoint_at host port
        → is_host host hosts ≡ true)
      ds

insert-is_host :
    (h j : Str) (hosts : StrSet)
    → is_host j hosts ≡ true
    → is_host j (Dict.insert h tt hosts) ≡ true
insert-is_host h j hosts e = ground (arith, e, lookup-insert h j tt hosts)

pub seed_each-seeds :
    (libs : Libraries) (ds : List DeviceConfig) (i now : ℕ) (f : Fleet)
    → All (IsUsableDevice libs) ds
    → IsKeyed f.registry.devices
    → (g : Fleet) × (seed_each libs i ds now f ≡ (g, none))
      × IsKeyed g.registry.devices
      × ((j : Str) → is_host j f.static_hosts ≡ true → is_host j g.static_hosts ≡ true)
      × AreHosts libs ds g.static_hosts
unfolding seed_each seed_parsed
seed_each-seeds libs [] i now f h keyed = (f, refl, keyed, (λ j e. e), tt)
seed_each-seeds libs (d ∷ ds) i now f h keyed =
    let f' = seed_device h.0.host h.0.port d.profile now f in
    let (g, e, keyed', stay, are) =
      seed_each-seeds libs ds (suc i) now f' h.1
        (upsert-IsKeyed (static_device h.0.host h.0.port d.profile now) f.registry keyed) in
    rw h.0.reads (
      g,
      e,
      keyed',
      (λ j k. stay j (insert-is_host h.0.host j f.static_hosts k)),
      (
        (λ host port parsed.
            let same : h.0.host ≡ host = cc parsed in
            stay host (
              ground (
                arith,
                lookup-insert h.0.host host tt f.static_hosts,
                (str_eq_iff h.0.host host).1 same,
              ))),
        are,
      ),
    )

-- With a configuration without validation errors, and a registry in which each device stands under its own
-- identifier: the seeding ends without an error, the host of every configured device is a static host, and
-- after any scans and polls from then on every device at a static host's address is a configured one.
pub changes-IsUnshadowed :
    (match_profile : Str → Option Str) (libs : Libraries) (c : Config) (now : ℕ) (r : Registry)
    (cs : List Change)
    → validate libs c ≡ []
    → IsKeyed r.devices
    → let (f, err) = seed_static_devices libs c now r in
      let g = changes match_profile cs f in
      (err ≡ none)
      × AreHosts libs c.devices g.static_hosts
      × IsUnshadowed g.static_hosts g.registry.devices
unfolding seed_static_devices
changes-IsUnshadowed match_profile libs c now r cs valid keyed =
    let usable = validate-IsUsable libs c valid in
    let (g, e, keyed', _, are) =
      seed_each-seeds libs c.devices 0 now (record { static_hosts = []; registry = r })
        usable.devices keyed in
    let seeded : Fleet = record g {
      registry = remove_shadows g.static_hosts (snapshot g.registry) g.registry;
    } in
    rw e (
      refl,
      subst (AreHosts libs c.devices) (sym (changes-static_hosts match_profile cs seeded)) are,
      changes-IsClear match_profile cs seeded
          (remove_shadows-IsUnshadowed g.static_hosts g.registry keyed'),
    )
