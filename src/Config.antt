-- ===== src/Config.antt =====
-- config.go: the receiver's configuration, its validation, and its conversions. Durations are numbers of
-- nanoseconds. `Libraries` are the functions of packages net, net/netip and net/url that read a text.
pub mod Validation
pub mod Usable
use networkdevicereceiver.Base.{
  ℕ, zero, suc, ◌+◌, Bool, true, false, not, ◌&&◌, ◌||◌, ◌==◌, Option, none, some, List, [], ◌∷◌,
  ◌++◌, map, ltb, if◌then◌else◌, is_empty, Str, lit, str_eq, is_blank, has_prefix, trim_space,
  contains_byte, ℤ, pos, negsuc, int_less,
}
use networkdevicereceiver.Snmp.Oid.{parse_uint}
use networkdevicereceiver.Snmp.Credentials.{
  Credentials, CredentialError, validate as validate_credentials,
}
use networkdevicereceiver.Snmp.Fetch.Session.{FetchConfig}
use networkdevicereceiver.Naming.Registry.{
  Scheme, semconv, datadog_compat, both, empty, unknown, Options,
}
use networkdevicereceiver.Discovery.Subnet.{
  Nets, ExpandError, Expanded, expanded, rejected, expand_cidr,
}
use networkdevicereceiver.Discovery.Scan

pub record DiscoveryConfig : Type 0 where
  pub rediscovery_interval : ℤ
  pub workers : ℤ
  pub allowed_failures : ℤ

-- The inline credentials are the field `inline`.
pub record SubnetConfig : Type 0 where
  pub network : Str
  pub port : ℕ
  pub inline : Credentials
  pub authentications : List Credentials
  pub ignored_addresses : List Str
  pub max_hosts : ℤ

pub record DeviceConfig : Type 0 where
  pub endpoint : Str
  pub inline : Credentials
  pub profile : Str

pub record NamingConfig : Type 0 where
  pub scheme : Str
  pub fallback_namespace : Str
  pub system_namespace : Bool

pub record Config : Type 0 where
  pub collection_interval : ℤ
  pub timeout : ℤ
  pub retries : ℤ
  pub pollers : ℤ
  pub discovery : DiscoveryConfig
  pub subnets : List SubnetConfig
  pub devices : List DeviceConfig
  pub user_dir : Str
  pub naming : NamingConfig
  pub fetch : FetchConfig
  pub storage : Option Str

unfoldable pub create_default_config : Config
create_default_config = record {
  collection_interval = pos 60000000000;
  timeout = pos 5000000000;
  retries = pos 3;
  pollers = pos 50;
  discovery = record {
    rediscovery_interval = pos 3600000000000;
    workers = pos 10;
    allowed_failures = pos 3;
  };
  subnets = [];
  devices = [];
  user_dir = [];
  naming = record {
    scheme = lit "semconv";
    fallback_namespace = lit "snmp";
    system_namespace = true;
  };
  fetch = record {
    oid_batch_size = pos 10;
    bulk_max_repetitions = 10;
    max_rows_per_column = pos 10000;
  };
  storage = none;
}

-- Scheme and host of url.Parse, host and port of net.SplitHostPort, whether net.ParseIP reads it.
pub record Libraries : Type 0 where
  pub nets : Nets
  pub parse_url : Str → Option (Str × Str)
  pub split_host_port : Str → Option (Str × Str)
  pub is_ip : Str → Bool

pub data EndpointError : Type 0 where
  no_endpoint no_host : EndpointError
  bad_url bad_scheme bad_split bad_port : Str → EndpointError

pub data Endpoint : Type 0 where
  endpoint_at : Str → ℕ → Endpoint
  no_endpoint_at : EndpointError → Endpoint

-- strings.Contains
unfoldable pub contains_text : Str → Str → Bool
contains_text [] t = is_blank t
contains_text (c ∷ s) t = has_prefix (c ∷ s) t || contains_text s t

-- strconv.ParseUint(s, 10, 16)
abbrev pub in_uint16 : Option ℕ → Option ℕ
in_uint16 none = none
in_uint16 (some n) = if ltb n 65536 then some n else none

abbrev host_or_error : Str → ℕ → Endpoint
host_or_error host port = if is_blank host then no_endpoint_at no_host else endpoint_at host port

abbrev with_port : Str → Str → Option ℕ → Endpoint
with_port endpoint host none = no_endpoint_at (bad_port endpoint)
with_port endpoint host (some port) = host_or_error host port

abbrev pub split_endpoint : Str → Option (Str × Str) → Endpoint
split_endpoint endpoint none = no_endpoint_at (bad_split endpoint)
split_endpoint endpoint (some (host, port)) = with_port endpoint host (in_uint16 (parse_uint port))

abbrev pub host_port : Libraries → Str → Endpoint
host_port libs endpoint =
    if contains_byte endpoint b':'
    then split_endpoint endpoint (libs.split_host_port endpoint)
    else endpoint_at endpoint 161

abbrev pub udp_endpoint : Libraries → Str → Option (Str × Str) → Endpoint
udp_endpoint libs endpoint none = no_endpoint_at (bad_url endpoint)
udp_endpoint libs endpoint (some (scheme, host)) =
    if str_eq scheme (lit "udp") then host_port libs host else no_endpoint_at (bad_scheme endpoint)

abbrev pub trimmed_endpoint : Libraries → Str → Endpoint
trimmed_endpoint libs endpoint =
    if is_blank endpoint
    then no_endpoint_at no_endpoint
    else if contains_text endpoint (lit "://")
    then udp_endpoint libs endpoint (libs.parse_url endpoint)
    else host_port libs endpoint

unfoldable pub parse_endpoint : Libraries → Str → Endpoint
unfolding contains_text
parse_endpoint libs endpoint = trimmed_endpoint libs (trim_space endpoint)

-- The inline credentials first.
unfoldable pub credentials : SubnetConfig → List Credentials
credentials s =
    if not (is_blank s.inline.community) || not (is_blank s.inline.user)
    then s.inline ∷ s.authentications
    else s.authentications

unfoldable pub scheme_of : Str → Scheme
scheme_of s =
    if is_blank s
    then empty
    else if str_eq s (lit "semconv")
    then semconv
    else if str_eq s (lit "datadog_compat")
    then datadog_compat
    else if str_eq s (lit "both")
    then both
    else unknown s

unfoldable pub naming_options : Config → Options
unfolding scheme_of
naming_options c = record {
  scheme = scheme_of c.naming.scheme;
  fallback_namespace = c.naming.fallback_namespace;
  system_namespace = c.naming.system_namespace;
}

unfoldable pub subnet_config : Config → SubnetConfig → Scan.SubnetConfig
unfolding credentials
subnet_config c s = record {
  network = s.network;
  port = if s.port == 0 then 161 else s.port;
  credentials = credentials s;
  ignored_addresses = s.ignored_addresses;
  timeout = c.timeout;
  retries = c.retries;
  max_hosts = s.max_hosts;
}

unfoldable pub subnet_configs : Config → List Scan.SubnetConfig
unfolding subnet_config
subnet_configs c = map (subnet_config c) c.subnets
