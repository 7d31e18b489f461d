-- ===== src/Discovery/Registry.antt =====
-- internal/discovery/registry.go: the set of devices, and how many failures each has in a row. The
-- mutex makes each method one step. Times are numbers.
pub mod Keyed
pub mod Failures
pub mod Persist
use networkdevicereceiver.Base.{
  ℕ, ◌+◌, ◌≡◌, Bool, true, false, not, ◌||◌, Option, none, some, List, [], ◌∷◌, ◌++◌, map, leb,
  if◌then◌else◌, length, keep, Str, is_blank, ℤ, pos, negsuc,
}
use networkdevicereceiver.Base.Dict
use networkdevicereceiver.Base.Dict.{Dict}
use networkdevicereceiver.Base.Sort.{sort, str_less}

pub record Device : Type 0 where
  pub id : Str
  pub address : Str
  pub port : ℕ
  pub subnet : Str
  pub auth_index : ℕ
  pub sys_object_id : Str
  pub profile_name : Str
  pub failures : ℕ
  pub static : Bool
  pub last_seen : ℕ

-- The registry without its store, which `save` and `load` take as an argument.
pub record Registry : Type 0 where
  pub devices : Dict Device
  pub allowed_failures : ℕ

abbrev clamp_failures : ℤ → ℕ
clamp_failures (pos n) = n
clamp_failures (negsuc n) = 0

unfoldable pub new_registry : ℤ → Registry
new_registry allowed = record { devices = []; allowed_failures = clamp_failures allowed }

abbrev pub or_keep : Str → Str → Str
or_keep new old = if is_blank new then old else new

unfoldable pub refresh : Device → Device → Device
refresh dev existing = record existing {
  address = dev.address;
  port = dev.port;
  auth_index = dev.auth_index;
  last_seen = dev.last_seen;
  failures = 0;
  sys_object_id = or_keep dev.sys_object_id existing.sys_object_id;
  profile_name = or_keep dev.profile_name existing.profile_name;
  subnet = or_keep dev.subnet existing.subnet;
  static = existing.static || dev.static;
}

abbrev pub upserted : Device → Option Device → Device
upserted dev none = record dev { failures = 0 }
upserted dev (some existing) = refresh dev existing

unfoldable pub upsert : Device → Registry → Registry
upsert dev r = record r {
  devices = Dict.insert dev.id (upserted dev (Dict.lookup dev.id r.devices)) r.devices;
}

abbrev pub by_id : Device → Device → Bool
by_id a b = str_less a.id b.id

abbrev pub values : Dict Device → List Device
values m = map (λ e. e.1) m

-- Devices: a snapshot in the order of the identifiers.
unfoldable pub snapshot : Registry → List Device
snapshot r = sort by_id (values r.devices)

unfoldable pub len : Registry → ℕ
len r = length r.devices

unfoldable pub get : Str → Registry → Option Device
get id r = Dict.lookup id r.devices

unfoldable pub remove : Str → Registry → Registry
remove id r = record r { devices = Dict.erase id r.devices }

-- if dev, ok := r.devices[id]; ok { ... }
abbrev pub update : Str → (Device → Device) → Option Device → Registry → Registry
update id f none r = r
update id f (some dev) r = record r { devices = Dict.insert id (f dev) r.devices }

unfoldable pub set_profile : Str → Str → Str → Registry → Registry
set_profile id sys_object_id profile_name r =
    update id (λ dev. record dev { sys_object_id = sys_object_id; profile_name = profile_name })
      (Dict.lookup id r.devices) r

unfoldable pub mark_success : Str → ℕ → Registry → Registry
mark_success id at r =
    update id (λ dev. record dev { failures = 0; last_seen = at }) (Dict.lookup id r.devices) r

unfoldable pub fail : Str → Option Device → Registry → Registry × Bool
fail id none r = (r, false)
fail id (some dev) r =
    let dev' = record dev { failures = dev.failures + 1 } in
    if dev'.static || leb dev'.failures r.allowed_failures
    then (record r { devices = Dict.insert id dev' r.devices }, false)
    else (record r { devices = Dict.erase id r.devices }, true)

-- MarkFailure, and whether the device was dropped.
unfoldable pub mark_failure : Str → Registry → Registry × Bool
unfolding fail
mark_failure id r = fail id (Dict.lookup id r.devices) r

-- What `Save` writes.
unfoldable pub persisted : Registry → List Device
persisted r = sort by_id (keep (λ dev. not dev.static) (values r.devices))

-- What `Load` does with the devices that it read.
unfoldable pub restore : List Device → Registry → Registry
restore [] r = r
restore (dev ∷ devs) r = restore devs (record r { devices = Dict.insert dev.id dev r.devices })

-- encoding/json on a list of devices, and the collector's storage extension over its state `W`.
pub record Storage (W : Type 0) : Type 0 where
  pub marshal : List Device → Option Str
  pub unmarshal : Str → Option (List Device)
  -- Get and Set at the key "devices"; `none` is an error.
  pub read : W → Option Str
  pub write : Str → W → Option W

pub data StorageError : Type 0 where
  marshal_failed persist_failed read_failed parse_failed : StorageError

pub data Outcome (A : Type 0) : Type 0 where
  ok : A → Outcome A
  err : StorageError → Outcome A

abbrev pub parsed : Option (List Device) → Registry → Outcome (Registry × ℕ)
parsed none r = err parse_failed
parsed (some devs) r = ok (restore devs r, length devs)

module _ {W : Type 0} where
  abbrev pub wrote : Option W → Outcome W
  wrote none = err persist_failed
  wrote (some w) = ok w

  unfoldable pub save_to : Storage W → Option Str → W → Outcome W
  save_to st none w = err marshal_failed
  save_to st (some bytes) w = wrote (st.write bytes w)

  -- `none` for the storage is Go's nil: nothing is written.
  unfoldable pub save : Option (Storage W) → Registry → W → Outcome W
  unfolding save_to
  save none r w = ok w
  save (some st) r w = save_to st (st.marshal (persisted r)) w

  unfoldable pub load_from : Storage W → Option Str → Registry → Outcome (Registry × ℕ)
  load_from st none r = err read_failed
  load_from st (some bytes) r = if is_blank bytes then ok (r, 0) else parsed (st.unmarshal bytes) r

  unfoldable pub load : Option (Storage W) → Registry → W → Outcome (Registry × ℕ)
  unfolding load_from restore
  load none r w = ok (r, 0)
  load (some st) r w = load_from st (st.read w) r
