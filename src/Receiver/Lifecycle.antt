-- ===== src/Receiver/Lifecycle.antt =====
-- receiver.go: `Start`, up to the loops that it begins, `storageClient` and `Shutdown`. What the collector's
-- host answers and whether the profiles load come in as arguments.
pub mod Starts
use networkdevicereceiver.Base.{
  ℕ, Bool, true, false, not, Option, none, some, List, [], ◌∷◌, is_empty, Str, Floats,
}
use networkdevicereceiver.Base.Dict.{Dict}
use networkdevicereceiver.Naming.Registry
use networkdevicereceiver.Naming.Registry.{Entry, NewError}
use networkdevicereceiver.Config.{Config, Libraries, EndpointError, naming_options}
use networkdevicereceiver.Discovery.Registry.{
  Registry, new_registry, Storage, StorageError, Outcome, ok, err, load, save,
}
use networkdevicereceiver.Receiver.Fleet.{Fleet, seed_static_devices}

-- The extension of that name, the storage extension that it is, and its client with its Close, whose
-- Boolean tells success.
pub record Client (W : Type 0) : Type 0 where
  pub storage : Storage W
  pub close : W → Bool × W

pub data Extension (W : Type 0) : Type 0 where
  absent not_storage no_client : Extension W
  client_of : Client W → Extension W

pub data StartError : Type 0 where
  no_profiles : StartError
  bad_registry : NewError → StartError
  not_configured wrong_kind client_failed : Str → StartError
  bad_device : ℕ × EndpointError → StartError

-- The receiver after Start: does it scan, and has it a client to close?
pub record Running (fl : Floats) (W : Type 0) : Type 0 where
  pub naming : Registry.Registry fl
  pub client : Option (Client W)
  pub fleet : Fleet
  pub scans : Bool

pub data Started (A : Type 0) : Type 0 where
  started : A → Started A
  start_failed : StartError → Started A

-- A registry that cannot be restored is left empty.
abbrev pub restored_or : Registry → Outcome (Registry × ℕ) → Registry
restored_or r (err e) = r
restored_or r (ok (restored, n)) = restored

pub data ShutdownError : Type 0 where
  save_failed : StorageError → ShutdownError
  close_failed : ShutdownError

abbrev first_error : Option ShutdownError → Bool → Option ShutdownError
first_error (some e) closed = some e
first_error none true = none
first_error none false = some close_failed

module _ {W : Type 0} where
  abbrev extension_client : Str → Extension W → Started (Option (Client W))
  extension_client name absent = start_failed (not_configured name)
  extension_client name not_storage = start_failed (wrong_kind name)
  extension_client name no_client = start_failed (client_failed name)
  extension_client name (client_of c) = started (some c)

  abbrev named_client : (Str → Extension W) → Option Str → Started (Option (Client W))
  named_client extensions none = started none
  named_client extensions (some name) = extension_client name (extensions name)

  unfoldable pub storage_client : (Str → Extension W) → Config → Started (Option (Client W))
  storage_client extensions c = named_client extensions c.storage

  abbrev pub storage_of : Option (Client W) → Option (Storage W)
  storage_of none = none
  storage_of (some c) = some c.storage

  unfoldable pub restore_registry : Config → Option (Client W) → W → Registry
  restore_registry c client w =
      let r = new_registry c.discovery.allowed_failures in
      restored_or r (load (storage_of client) r w)

  module _ (fl : Floats) (libs : Libraries) (c : Config) (now : ℕ) (w : W) where
    abbrev pub seeded :
        Registry.Registry fl
        → Option (Client W)
        → Fleet × Option (ℕ × EndpointError)
        → Started (Running fl W)
    seeded naming client (f, some e) = start_failed (bad_device e)
    seeded naming client (f, none) =
        started
          (record { naming = naming; client = client; fleet = f; scans = not (is_empty c.subnets) })

    abbrev pub with_client :
        Registry.Registry fl → Started (Option (Client W)) → Started (Running fl W)
    with_client naming (start_failed e) = start_failed e
    with_client naming (started client) =
        seeded naming client (seed_static_devices libs c now (restore_registry c client w))

    abbrev pub with_naming :
        (Str → Extension W) → Registry.Built (Registry.Registry fl) → Started (Running fl W)
    with_naming extensions (Registry.invalid e) = start_failed (bad_registry e)
    with_naming extensions (Registry.built naming) =
        with_client naming (storage_client extensions c)

    -- `profiles_load` tells the outcome of `NewStore`; the lists are those of the embedded naming registry.
    unfoldable pub start :
        Bool → Dict (Entry fl) → Dict (Entry fl) → (Str → Extension W) → Started (Running fl W)
    unfolding storage_client restore_registry
    start false metrics systems extensions = start_failed no_profiles
    start true metrics systems extensions =
        with_naming extensions (Registry.new (naming_options c) metrics systems)

  abbrev closed_after : Option ShutdownError → Bool × W → Option ShutdownError × W
  closed_after e (closed, w) = (first_error e closed, w)

  abbrev and_close : Option (Client W) → Option ShutdownError → W → Option ShutdownError × W
  and_close none e w = (e, w)
  and_close (some c) e w = closed_after e (c.close w)

  abbrev saved : Option (Client W) → W → Outcome W → Option ShutdownError × W
  saved client w (err e) = and_close client (some (save_failed e)) w
  saved client w (ok w') = and_close client none w'

  -- Once the loops have ended: the client is closed whether or not the registry could be saved.
  unfoldable pub shutdown : {fl : Floats} → Running fl W → W → Option ShutdownError × W
  unfolding save
  shutdown r w = saved r.client w (save (storage_of r.client) r.fleet.registry w)
