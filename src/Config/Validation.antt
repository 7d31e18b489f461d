-- ===== src/Config/Validation.antt =====
-- config.go: `Validate`. Each place that reports a problem has its constructor.
use networkdevicereceiver.Base.{
  ℕ, suc, Bool, not, ◌&&◌, Option, none, some, List, [], ◌∷◌, ◌++◌, map, if◌then◌else◌, is_empty,
  Str, is_blank, ℤ, pos, int_less,
}
use networkdevicereceiver.Snmp.Credentials.{
  Credentials, CredentialError, validate as validate_credentials,
}
use networkdevicereceiver.Naming.Registry.{Scheme, unknown}
use networkdevicereceiver.Discovery.Subnet.{ExpandError, Expanded, expanded, rejected, expand_cidr}
use networkdevicereceiver.Config.{
  Config, SubnetConfig, DeviceConfig, Libraries, EndpointError, Endpoint, endpoint_at,
  no_endpoint_at, parse_endpoint, credentials, scheme_of,
}

pub data ConfigError : Type 0 where
  no_targets bad_interval negative_pollers negative_rediscovery negative_failures : ConfigError
  bad_naming_scheme : Str → ConfigError
  in_subnet in_device in_authentication : ℕ → ConfigError → ConfigError
  no_network no_authentication empty_endpoint : ConfigError
  bad_expansion : ExpandError → ConfigError
  bad_credentials : CredentialError → ConfigError
  not_an_ip : Str → ConfigError
  bad_endpoint : EndpointError → ConfigError

abbrev pub error_if : Bool → ConfigError → List ConfigError
error_if b e = if b then e ∷ [] else []

abbrev pub expansion_errors : Expanded → List ConfigError
expansion_errors (expanded addresses) = []
expansion_errors (rejected e) = bad_expansion e ∷ []

abbrev pub credential_errors : Option CredentialError → List ConfigError
credential_errors none = []
credential_errors (some e) = bad_credentials e ∷ []

abbrev pub endpoint_errors : Endpoint → List ConfigError
endpoint_errors (endpoint_at host port) = []
endpoint_errors (no_endpoint_at e) = bad_endpoint e ∷ []

unfoldable pub authentication_errors : ℕ → List Credentials → List ConfigError
authentication_errors i [] = []
authentication_errors i (c ∷ cs) =
    map (in_authentication i) (credential_errors (validate_credentials c))
    ++ authentication_errors (suc i) cs

unfoldable pub address_errors : Libraries → List Str → List ConfigError
address_errors libs [] = []
address_errors libs (a ∷ as') =
    error_if (not (libs.is_ip a)) (not_an_ip a) ++ address_errors libs as'

unfoldable pub validate_subnet : Libraries → SubnetConfig → List ConfigError
unfolding authentication_errors address_errors credentials
validate_subnet libs s =
    (if is_blank s.network
      then no_network ∷ []
      else expansion_errors (expand_cidr libs.nets s.network s.max_hosts))
    ++ error_if (is_empty (credentials s)) no_authentication
    ++ authentication_errors 0 (credentials s)
    ++ address_errors libs s.ignored_addresses

unfoldable pub validate_device : Libraries → DeviceConfig → List ConfigError
unfolding parse_endpoint
validate_device libs d =
    (if is_blank d.endpoint
      then empty_endpoint ∷ []
      else endpoint_errors (parse_endpoint libs d.endpoint))
    ++ credential_errors (validate_credentials d.inline)

abbrev pub scheme_errors : Scheme → List ConfigError
scheme_errors (unknown s) = bad_naming_scheme s ∷ []
scheme_errors _ = []

unfoldable pub subnet_errors : Libraries → ℕ → List SubnetConfig → List ConfigError
unfolding validate_subnet
subnet_errors libs i [] = []
subnet_errors libs i (s ∷ ss) =
    map (in_subnet i) (validate_subnet libs s) ++ subnet_errors libs (suc i) ss

unfoldable pub device_errors : Libraries → ℕ → List DeviceConfig → List ConfigError
unfolding validate_device
device_errors libs i [] = []
device_errors libs i (d ∷ ds) =
    map (in_device i) (validate_device libs d) ++ device_errors libs (suc i) ds

abbrev pub is_positive : ℤ → Bool
is_positive n = int_less (pos 0) n

abbrev pub is_negative : ℤ → Bool
is_negative n = int_less n (pos 0)

unfoldable pub validate : Libraries → Config → List ConfigError
unfolding scheme_of subnet_errors device_errors
validate libs c =
    error_if (is_empty c.subnets && is_empty c.devices) no_targets
    ++ error_if (not (is_positive c.collection_interval)) bad_interval
    ++ error_if (is_negative c.pollers) negative_pollers
    ++ error_if (is_negative c.discovery.rediscovery_interval) negative_rediscovery
    ++ error_if (is_negative c.discovery.allowed_failures) negative_failures
    ++ scheme_errors (scheme_of c.naming.scheme)
    ++ subnet_errors libs 0 c.subnets
    ++ device_errors libs 0 c.devices
