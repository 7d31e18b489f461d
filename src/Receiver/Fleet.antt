-- ===== src/Receiver/Fleet.antt =====
-- receiver.go: the devices that the receiver registers, configured or scanned, and the credentials with
-- which it asks them. `match_profile` is the store's `Match`.
pub mod Shadows
pub mod Changes
pub mod Unshadowed
pub mod Registered
use networkdevicereceiver.Base.{
  ℕ, suc, ◌+◌, Bool, true, false, Option, none, some, List, [], ◌∷◌, ltb, if◌then◌else◌, length,
  get_elem?, Str, str_eq, is_blank,
}
use networkdevicereceiver.Base.Dict
use networkdevicereceiver.Base.Dict.{Dict}
use networkdevicereceiver.Profile.Compile.{StrSet}
use networkdevicereceiver.Snmp.Credentials.{Credentials}
use networkdevicereceiver.Config.{
  Config, SubnetConfig, DeviceConfig, Libraries, Endpoint, endpoint_at, no_endpoint_at,
  EndpointError, parse_endpoint, credentials,
}
use networkdevicereceiver.Discovery.Scan.{device_id}
use networkdevicereceiver.Discovery.Registry.{
  Device, Registry, upsert, remove, snapshot, set_profile,
}

-- `staticHosts` and `devices` of the receiver.
pub record Fleet : Type 0 where
  pub static_hosts : StrSet
  pub registry : Registry

abbrev pub is_host : Str → StrSet → Bool
is_host address hosts = elim (Dict.lookup address hosts) [ none ↦ false | some tt ↦ true ]

abbrev pub static_device : Str → ℕ → Str → ℕ → Device
static_device host port profile now = record {
  id = device_id host [];
  address = host;
  port = port;
  subnet = [];
  auth_index = 0;
  sys_object_id = [];
  profile_name = profile;
  failures = 0;
  static = true;
  last_seen = now;
}

abbrev pub seed_device : Str → ℕ → Str → ℕ → Fleet → Fleet
seed_device host port profile now f = record {
  static_hosts = Dict.insert host tt f.static_hosts;
  registry = upsert (static_device host port profile now) f.registry;
}

-- Each device at the time `now`; the error tells the position of the device.
pub seed_parsed :
    ℕ
    → Endpoint
    → Str
    → ℕ
    → Fleet
    → (Fleet → Fleet × Option (ℕ × EndpointError))
    → Fleet × Option (ℕ × EndpointError)
seed_parsed i (no_endpoint_at e) profile now f rest = (f, some (i, e))
seed_parsed i (endpoint_at host port) profile now f rest =
    rest (seed_device host port profile now f)

unfoldable pub seed_each :
    Libraries → ℕ → List DeviceConfig → ℕ → Fleet → Fleet × Option (ℕ × EndpointError)
unfolding seed_parsed
seed_each libs i [] now f = (f, none)
seed_each libs i (d ∷ ds) now f =
    seed_parsed i (parse_endpoint libs d.endpoint) d.profile now f (seed_each libs (suc i) ds now)

abbrev pub is_shadow : StrSet → Device → Bool
is_shadow hosts dev = if dev.static then false else is_host dev.address hosts

abbrev pub remove_if : Bool → Device → Registry → Registry
remove_if false dev r = r
remove_if true dev r = remove dev.id r

-- The scanned entries of devices that are configured as well.
unfoldable pub remove_shadows : StrSet → List Device → Registry → Registry
remove_shadows hosts [] r = r
remove_shadows hosts (dev ∷ devs) r =
    remove_shadows hosts devs (remove_if (is_shadow hosts dev) dev r)

abbrev pub without_shadows : Fleet × Option (ℕ × EndpointError) → Fleet × Option (ℕ × EndpointError)
without_shadows (f, some e) = (f, some e)
without_shadows (f, none) =
    (record f { registry = remove_shadows f.static_hosts (snapshot f.registry) f.registry }, none)

-- seedStaticDevices
unfoldable pub seed_static_devices :
    Libraries → Config → ℕ → Registry → Fleet × Option (ℕ × EndpointError)
unfolding seed_each remove_shadows
seed_static_devices libs c now r =
    without_shadows (seed_each libs 0 c.devices now (record { static_hosts = []; registry = r }))

module _ (match_profile : Str → Option Str) where
  abbrev pub with_profile : Device → Option Str → Registry → Registry
  with_profile dev none r = r
  with_profile dev (some matched) r = set_profile dev.id dev.sys_object_id matched r

  -- One device of a scan.
  abbrev pub register : StrSet → Device → Registry → Registry
  register hosts dev r =
      if is_host dev.address hosts
      then r
      else if is_blank dev.sys_object_id
      then upsert dev r
      else with_profile dev (match_profile dev.sys_object_id) (upsert dev r)

  -- The loop of scanAll over what a subnet's scan found.
  unfoldable pub register_found : List Device → Fleet → Fleet
  register_found [] f = f
  register_found (dev ∷ devs) f =
      register_found devs (record f { registry = register f.static_hosts dev f.registry })

pub data CredentialsOf : Type 0 where
  chosen : Credentials → CredentialsOf
  not_configured : Str → CredentialsOf

abbrev is_at : Str → Endpoint → Bool
is_at address (no_endpoint_at e) = false
is_at address (endpoint_at host port) = str_eq host address

unfoldable pub static_credentials : Libraries → Str → List DeviceConfig → CredentialsOf
static_credentials libs address [] = not_configured address
static_credentials libs address (d ∷ ds) =
    let rest = static_credentials libs address ds in
    if is_at address (parse_endpoint libs d.endpoint) then chosen d.inline else rest

-- The index-th, or else the first.
unfoldable pub at_index : ℕ → List Credentials → CredentialsOf → CredentialsOf
at_index index [] rest = rest
at_index index (c ∷ cs) rest = elim (get_elem? (c ∷ cs) index) [
  | none ↦ chosen c
  | some asked ↦ chosen asked
]

unfoldable pub subnet_credentials : Device → List SubnetConfig → CredentialsOf
unfolding at_index
subnet_credentials dev [] = not_configured dev.subnet
subnet_credentials dev (s ∷ ss) =
    let rest = subnet_credentials dev ss in
    if str_eq s.network dev.subnet then at_index dev.auth_index (credentials s) rest else rest

unfoldable pub credentials_for : Libraries → Config → Device → CredentialsOf
unfolding static_credentials subnet_credentials
credentials_for libs c dev =
    if dev.static
    then static_credentials libs dev.address c.devices
    else subnet_credentials dev c.subnets
