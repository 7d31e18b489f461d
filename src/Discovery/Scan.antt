-- ===== src/Discovery/Scan.antt =====
-- internal/discovery/scan.go: `DeviceID`, the probe of an address, and the scan of a subnet. The world
-- `W` holds the network, the context and the clock; `Transport` dials, and tells the state of the context.
-- A subnet's addresses are probed one after another: the source's workers probe some of them at a time.
pub mod Identity
pub mod Answered
pub mod Found
use networkdevicereceiver.Base.{
  ℕ, zero, suc, ◌+◌, Bool, true, false, Option, none, some, List, [], ◌∷◌, ◌++◌, if◌then◌else◌,
  is_empty, Str, lit, str_eq, is_blank, Floats, ℤ, pos,
}
use networkdevicereceiver.Snmp.Credentials.{Credentials, ConnectionConfig}
use networkdevicereceiver.Snmp.Value.{ValueStore, ResultValue, scalar, string_of}
use networkdevicereceiver.Snmp.Fetch.Session.{Session, FetchConfig}
use networkdevicereceiver.Snmp.Fetch.Poll.{Fetched, fetch}
use networkdevicereceiver.Discovery.Registry.{Device}
use networkdevicereceiver.Discovery.Subnet.{
  Nets, ExpandError, Expanded, expanded, rejected, expand_cidr,
}

unfoldable pub device_id : Str → Str → Str
device_id address subnet = if is_blank subnet then address else address ++ b'|' ∷ subnet

pub record SubnetConfig : Type 0 where
  pub network : Str
  pub port : ℕ
  pub credentials : List Credentials
  pub ignored_addresses : List Str
  pub timeout : ℤ
  pub retries : ℤ
  pub max_hosts : ℤ

-- A session with its Connect, whose Boolean tells success, and its Close.
pub record Dialed (fl : Floats) (W : Type 0) : Type 0 where
  pub session : Session fl W
  pub connect : W → Bool × W
  pub close : W → W

-- The dialer, ctx.Err() != nil, and time.Now().
pub record Transport (fl : Floats) (W : Type 0) : Type 0 where
  pub dial : ConnectionConfig → W → Option (Dialed fl W) × W
  pub is_done : W → Bool × W
  pub now : W → ℕ × W

abbrev pub oid_sys_object_id : Str
oid_sys_object_id = lit "1.3.6.1.2.1.1.2.0"

pub data ScanError : Type 0 where
  bad_subnet : ExpandError → ScanError
  no_credentials : Str → ScanError
  cancelled : ScanError

unfoldable pub is_ignored : Str → List Str → Bool
is_ignored address [] = false
is_ignored address (a ∷ as') = if str_eq a address then true else is_ignored address as'

abbrev pub device_at : Str → SubnetConfig → ℕ → Str → ℕ → Device
device_at address subnet index sys_object_id seen = record {
  id = device_id address subnet.network;
  address = address;
  port = subnet.port;
  subnet = subnet.network;
  auth_index = index;
  sys_object_id = sys_object_id;
  profile_name = [];
  failures = 0;
  static = false;
  last_seen = seen;
}

abbrev pub config_of : Str → SubnetConfig → Credentials → ConnectionConfig
config_of address subnet creds = record {
  host = address;
  port = subnet.port;
  credentials = creds;
  timeout = subnet.timeout;
  retries = subnet.retries;
}

module _ (fl : Floats) where
  abbrev pub sys_object_id_in : Option (ResultValue fl) → Option Str
  sys_object_id_in none = none
  sys_object_id_in (some v) =
      if is_blank (string_of fl v.value) then none else some (string_of fl v.value)

  module _ {W : Type 0} where
    abbrev pub probed : Option (Fetched fl W) → Option (Option Str × W)
    probed none = none
    probed (some f) = some (sys_object_id_in (scalar fl f.store oid_sys_object_id), f.world)

    -- ProbeSysObjectID; `Fetch` always returns a store. The outer `none` is a fetch that does not return.
    unfoldable pub probe_sys_object_id : Session fl W → W → Option (Option Str × W)
    unfolding fetch
    probe_sys_object_id sess w = probed (
        fetch fl 0 sess (oid_sys_object_id ∷ []) []
          (record { oid_batch_size = pos 0; bulk_max_repetitions = 0; max_rows_per_column = pos 0 })
          w)

    module _ (tr : Transport fl W) (address : Str) (subnet : SubnetConfig) where
      -- The device, or the next credentials.
      pub answered_or :
          ℕ → (W → Option (Option Device × W)) → Option Str × W → Option (Option Device × W)
      answered_or index rest (none, w) = rest w
      answered_or index rest (some sys_object_id, w) =
          let (seen, w') = tr.now w in
          some (some (device_at address subnet index sys_object_id seen), w')

      pub identified_or :
          ℕ
          → Dialed fl W
          → (W → Option (Option Device × W))
          → Option (Option Str × W)
          → Option (Option Device × W)
      identified_or index d rest none = none
      identified_or index d rest (some (found, w)) = answered_or index rest (found, d.close w)

      pub connected_or :
          ℕ → Dialed fl W → (W → Option (Option Device × W)) → Bool × W → Option (Option Device × W)
      connected_or index d rest (false, w) = rest (d.close w)
      connected_or index d rest (true, w) =
          identified_or index d rest (probe_sys_object_id d.session w)

      pub dialed_or :
          ℕ
          → (W → Option (Option Device × W))
          → Option (Dialed fl W) × W
          → Option (Option Device × W)
      dialed_or index rest (none, w) = rest w
      dialed_or index rest (some d, w) = connected_or index d rest (d.connect w)

      pub unless_done :
          ℕ → Credentials → (W → Option (Option Device × W)) → Bool × W → Option (Option Device × W)
      unless_done index creds rest (true, w) = some (none, w)
      unless_done index creds rest (false, w) =
          dialed_or index rest (tr.dial (config_of address subnet creds) w)

      -- The credentials in turn, from the index-th on.
      unfoldable pub probe_from : ℕ → List Credentials → W → Option (Option Device × W)
      probe_from index [] w = some (none, w)
      probe_from index (creds ∷ more) w =
          unless_done index creds (λ w'. probe_from (suc index) more w') (tr.is_done w)

      unfoldable pub probe : W → Option (Option Device × W)
      unfolding probe_from
      probe w = probe_from 0 subnet.credentials w

    module _ (tr : Transport fl W) (subnet : SubnetConfig) where
      -- if result.found { found = append(found, result.device) }
      abbrev pub and_found : Option Device → Option (List Device × W) → Option (List Device × W)
      and_found found none = none
      and_found none (some (more, w)) = some (more, w)
      and_found (some dev) (some (more, w)) = some (dev ∷ more, w)

      abbrev pub then_rest :
          Option (Option Device × W) → (W → Option (List Device × W)) → Option (List Device × W)
      then_rest none rest = none
      then_rest (some (found, w)) rest = and_found found (rest w)

      unfoldable pub scan_each : List Str → W → Option (List Device × W)
      unfolding probe is_ignored
      scan_each [] w = some ([], w)
      scan_each (address ∷ more) w =
          let rest : W → Option (List Device × W) = λ w'. scan_each more w' in
          if is_ignored address subnet.ignored_addresses
          then rest w
          else then_rest (probe tr address subnet w) rest

      abbrev pub unless_cancelled : List Device → Bool × W → (List Device × Option ScanError) × W
      unless_cancelled found (done, w) = ((found, if done then some cancelled else none), w)

      abbrev pub checked : Option (List Device × W) → Option ((List Device × Option ScanError) × W)
      checked none = none
      checked (some (found, w)) = some (unless_cancelled found (tr.is_done w))

      abbrev pub scan_expanded : Expanded → W → Option ((List Device × Option ScanError) × W)
      scan_expanded (rejected e) w = some (([], some (bad_subnet e)), w)
      scan_expanded (expanded addresses) w =
          if is_empty subnet.credentials
          then some (([], some (no_credentials subnet.network)), w)
          else checked (scan_each addresses w)

      -- The devices that were found, and the error.
      unfoldable pub scan : Nets → W → Option ((List Device × Option ScanError) × W)
      unfolding scan_each
      scan nets w = scan_expanded (expand_cidr nets subnet.network subnet.max_hosts) w
