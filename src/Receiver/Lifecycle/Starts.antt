-- ===== src/Receiver/Lifecycle/Starts.antt =====
-- receiver.go: what `Start` makes of a configuration that was accepted.
use networkdevicereceiver.Base.{
  ℕ, ◌≡◌, refl, true, Option, none, some, List, [], ◌∷◌, is_empty, not, Str, Floats,
}
use networkdevicereceiver.Base.Dict.{Dict}
use networkdevicereceiver.Naming.Registry
use networkdevicereceiver.Naming.Registry.{Entry}
use networkdevicereceiver.Config.{Config, Libraries, EndpointError, naming_options}
use networkdevicereceiver.Config.Validation.{validate}
use networkdevicereceiver.Discovery.Registry.{
  Device, Registry, new_registry, load, load_from, Storage, parsed,
}
use networkdevicereceiver.Discovery.Registry.Keyed.{IsKeyed, restore-IsKeyed}
use networkdevicereceiver.Receiver.Fleet.{Fleet, seed_static_devices}
use networkdevicereceiver.Receiver.Fleet.Shadows.{IsUnshadowed}
use networkdevicereceiver.Receiver.Fleet.Unshadowed.{AreHosts, changes-IsUnshadowed}
use networkdevicereceiver.Receiver.Fleet.Registered.{
  AreRegistered, seed_static_devices-AreRegistered,
}
use networkdevicereceiver.Receiver.Fleet.Changes.{changes}
use networkdevicereceiver.Receiver.Lifecycle.{
  Client, Extension, Running, started, storage_client, storage_of, restored_or, restore_registry,
  seeded, start,
}

module _ {W : Type 0} where
  loaded-IsKeyed :
      (r : Registry) (st : Storage W) (bytes : Option Str)
      → IsKeyed r.devices
      → IsKeyed (restored_or r (load_from st bytes r)).devices
  unfolding load_from
  loaded-IsKeyed r st none h = h
  loaded-IsKeyed r st (some []) h = h
  loaded-IsKeyed r st (some (c ∷ bytes)) h = read (st.unmarshal (c ∷ bytes))
    where
      read : (o : Option (List Device)) → IsKeyed (restored_or r (parsed o r)).devices
      read none = h
      read (some devs) = restore-IsKeyed devs r h

  restored-IsKeyed :
      (r : Registry) (client : Option (Client W)) (w : W)
      → IsKeyed r.devices
      → IsKeyed (restored_or r (load (storage_of client) r w)).devices
  unfolding load
  restored-IsKeyed r none w h = h
  restored-IsKeyed r (some c) w h = loaded-IsKeyed r c.storage (c.storage.read w) h

  -- A receiver whose configured devices are registered as such, each host a static host at which no scanned device
  -- stands, and which scans if there is a subnet.
  pub record IsStarted (fl : Floats) (libs : Libraries) (c : Config) (r : Running fl W)
      : Type 0 where
    pub hosts : AreHosts libs c.devices r.fleet.static_hosts
    pub registered : AreRegistered libs c.devices r.fleet.registry.devices
    pub unshadowed : IsUnshadowed r.fleet.static_hosts r.fleet.registry.devices
    pub scanning : r.scans ≡ not (is_empty c.subnets)

  seeded-IsStarted :
      (fl : Floats) (libs : Libraries) (c : Config) (now : ℕ) (w : W)
      (naming : Registry.Registry fl) (client : Option (Client W))
      (out : Fleet × Option (ℕ × EndpointError))
      → out.1 ≡ none
      → AreHosts libs c.devices out.0.static_hosts
      → AreRegistered libs c.devices out.0.registry.devices
      → IsUnshadowed out.0.static_hosts out.0.registry.devices
      → (r : Running fl W) × (seeded fl libs c now w naming client out ≡ started r)
        × IsStarted fl libs c r
  seeded-IsStarted fl libs c now w naming client (f, some e) none_failed hosts are clear =
      cc none_failed
  seeded-IsStarted fl libs c now w naming client (f, none) none_failed hosts are clear =
      (_, refl, record { hosts = hosts; registered = are; unshadowed = clear; scanning = refl })

  -- With a configuration without validation errors, profiles that load, a naming registry that is built and
  -- a storage client that is found if one is named: the receiver starts, whatever the storage holds and even
  -- if it cannot be read, with every configured device registered under
  -- the identifier of its host, at that address and marked as configured, and no scanned device at the address of one.
  pub start-IsStarted :
      (fl : Floats) (libs : Libraries) (c : Config) (now : ℕ) (w : W)
      (metrics systems : Dict (Entry fl)) (extensions : Str → Extension W)
      (naming : Registry.Registry fl) (client : Option (Client W))
      → validate libs c ≡ []
      → Registry.new (naming_options c) metrics systems ≡ Registry.built naming
      → storage_client extensions c ≡ started client
      → (r : Running fl W) × (start fl libs c now w true metrics systems extensions ≡ started r)
        × IsStarted fl libs c r
  unfolding start restore_registry new_registry changes
  start-IsStarted fl libs c now w metrics systems extensions naming client valid built found =
      let r =
        restored_or (new_registry c.discovery.allowed_failures)
          (load (storage_of client) (new_registry c.discovery.allowed_failures) w) in
      let keyed = restored-IsKeyed (new_registry c.discovery.allowed_failures) client w tt in
      let (fine, hosts, clear) = changes-IsUnshadowed (λ id. none) libs c now r [] valid keyed in
      let are = seed_static_devices-AreRegistered libs c now r valid keyed in
      rw (built, found)
        (seeded-IsStarted fl libs c now w naming client (seed_static_devices libs c now r) fine
          hosts are clear)
