-- ===== src/Config/Usable.antt =====
-- config.go: what an accepted configuration gives the parts of the receiver that are made of it.
use networkdevicereceiver.Base.{
  ℕ, suc, ◌≡◌, refl, Bool, true, false, not, ◌&&◌, Option, none, some, List, [], ◌∷◌, ◌++◌, map,
  All, if◌then◌else◌, is_empty, Str, is_blank,
}
use networkdevicereceiver.Snmp.Credentials.{
  Credentials, CredentialError, validate as validate_credentials,
}
use networkdevicereceiver.Naming.Registry.{Scheme, semconv, datadog_compat, both, empty, unknown}
use networkdevicereceiver.Discovery.Subnet.{Expanded, expanded, rejected, expand_cidr}
use networkdevicereceiver.Config.{
  Config, SubnetConfig, DeviceConfig, Libraries, Endpoint, endpoint_at, no_endpoint_at,
  parse_endpoint, credentials, scheme_of,
}
use networkdevicereceiver.Config.Validation.{
  ConfigError, error_if, is_positive, is_negative, no_targets, bad_interval, negative_pollers,
  negative_rediscovery, negative_failures, expansion_errors, credential_errors, no_network,
  no_authentication, address_errors, endpoint_errors, authentication_errors, validate_subnet,
  validate_device, subnet_errors, device_errors, scheme_errors, validate,
}

nil_left {ℓ} : {A : Type ℓ} (xs ys : List A) → xs ++ ys ≡ [] → xs ≡ []
nil_left [] ys e = refl
nil_left (x ∷ xs) ys e = cc e

nil_right {ℓ} : {A : Type ℓ} (xs ys : List A) → xs ++ ys ≡ [] → ys ≡ []
nil_right [] ys e = e
nil_right (x ∷ xs) ys e = cc e

nil_parts {ℓ} :
    {A : Type ℓ} (xs ys zs ws : List A)
    → xs ++ ys ++ zs ++ ws ≡ []
    → (xs ≡ []) × (ys ≡ []) × (zs ≡ []) × (ws ≡ [])
nil_parts xs ys zs ws e =
    let three = nil_left (xs ++ ys ++ zs) ws e in
    let two = nil_left (xs ++ ys) zs three in
    (
      nil_left xs ys two,
      nil_right xs ys two,
      nil_right (xs ++ ys) zs three,
      nil_right (xs ++ ys ++ zs) ws e,
    )

nil_map : {A B : Type 0} (f : A → B) (xs : List A) → map f xs ≡ [] → xs ≡ []
nil_map f [] e = refl
nil_map f (x ∷ xs) e = cc e

-- It has an endpoint, and credentials that a session takes.
pub record IsUsableDevice (libs : Libraries) (d : DeviceConfig) : Type 0 where
  pub host : Str
  pub port : ℕ
  pub reads : parse_endpoint libs d.endpoint ≡ endpoint_at host port
  pub accepted : validate_credentials d.inline ≡ none

-- It expands, and has credentials, all of which a session takes.
pub record IsUsableSubnet (libs : Libraries) (s : SubnetConfig) : Type 0 where
  pub addresses : List Str
  pub expands : expand_cidr libs.nets s.network s.max_hosts ≡ expanded addresses
  pub several : is_empty (credentials s) ≡ false
  pub accepted : All (λ c. validate_credentials c ≡ none) (credentials s)

no_credential_errors : (o : Option CredentialError) → credential_errors o ≡ [] → o ≡ none
no_credential_errors none e = refl
no_credential_errors (some x) e = cc e

no_endpoint_errors :
    (x : Endpoint)
    → endpoint_errors x ≡ []
    → (host : Str) × (port : ℕ) × (x ≡ endpoint_at host port)
no_endpoint_errors (endpoint_at host port) e = (host, port, refl)
no_endpoint_errors (no_endpoint_at x) e = cc e

no_expansion_errors :
    (x : Expanded) → expansion_errors x ≡ [] → (addresses : List Str) × (x ≡ expanded addresses)
no_expansion_errors (expanded addresses) e = (addresses, refl)
no_expansion_errors (rejected x) e = cc e

no_error_if : (b : Bool) (x : ConfigError) → error_if b x ≡ [] → b ≡ false
no_error_if false x e = refl
no_error_if true x e = cc e

unless_blank :
    (b : Bool) (x : ConfigError) (xs : List ConfigError) → (if b then x ∷ [] else xs) ≡ [] → xs ≡ []
unless_blank false x xs e = e
unless_blank true x xs e = cc e

validate_device-usable :
    (libs : Libraries) (d : DeviceConfig) → validate_device libs d ≡ [] → IsUsableDevice libs d
unfolding validate_device
validate_device-usable libs d e =
    let (host, port, reads) =
      no_endpoint_errors (parse_endpoint libs d.endpoint)
        (unless_blank (is_blank d.endpoint) _ _ (nil_left _ _ e)) in
    record {
      host = host;
      port = port;
      reads = reads;
      accepted = no_credential_errors (validate_credentials d.inline) (nil_right _ _ e);
    }

authentication_errors-none :
    (i : ℕ) (cs : List Credentials)
    → authentication_errors i cs ≡ []
    → All (λ c. validate_credentials c ≡ none) cs
unfolding authentication_errors
authentication_errors-none i [] e = tt
authentication_errors-none i (c ∷ cs) e = (
  no_credential_errors (validate_credentials c) (nil_map _ _ (nil_left _ _ e)),
  authentication_errors-none (suc i) cs (nil_right _ _ e),
)

validate_subnet-usable :
    (libs : Libraries) (s : SubnetConfig) → validate_subnet libs s ≡ [] → IsUsableSubnet libs s
unfolding validate_subnet
validate_subnet-usable libs s e =
    let (network, several, accepted, _) =
      nil_parts
        (if is_blank s.network
          then no_network ∷ []
          else expansion_errors (expand_cidr libs.nets s.network s.max_hosts))
        (error_if (is_empty (credentials s)) no_authentication)
        (authentication_errors 0 (credentials s)) (address_errors libs s.ignored_addresses) e in
    let (addresses, expands) =
      no_expansion_errors (expand_cidr libs.nets s.network s.max_hosts)
        (unless_blank (is_blank s.network) no_network _ network) in
    record {
      addresses = addresses;
      expands = expands;
      several = no_error_if (is_empty (credentials s)) no_authentication several;
      accepted = authentication_errors-none 0 (credentials s) accepted;
    }

subnet_errors-none :
    (libs : Libraries) (i : ℕ) (ss : List SubnetConfig)
    → subnet_errors libs i ss ≡ []
    → All (IsUsableSubnet libs) ss
unfolding subnet_errors
subnet_errors-none libs i [] e = tt
subnet_errors-none libs i (s ∷ ss) e = (
  validate_subnet-usable libs s (nil_map _ _ (nil_left _ _ e)),
  subnet_errors-none libs (suc i) ss (nil_right _ _ e),
)

device_errors-none :
    (libs : Libraries) (i : ℕ) (ds : List DeviceConfig)
    → device_errors libs i ds ≡ []
    → All (IsUsableDevice libs) ds
unfolding device_errors
device_errors-none libs i [] e = tt
device_errors-none libs i (d ∷ ds) e = (
  validate_device-usable libs d (nil_map _ _ (nil_left _ _ e)),
  device_errors-none libs (suc i) ds (nil_right _ _ e),
)

-- What the receiver asks of its configuration.
pub record IsUsable (libs : Libraries) (c : Config) : Type 0 where
  pub positive : is_positive c.collection_interval ≡ true
  pub targeted : (is_empty c.subnets && is_empty c.devices) ≡ false
  pub named : (s : Str) → ¬ (scheme_of c.naming.scheme ≡ unknown s)
  pub subnets : All (IsUsableSubnet libs) c.subnets
  pub devices : All (IsUsableDevice libs) c.devices

known_scheme : (scheme : Scheme) (s : Str) → scheme_errors scheme ≡ [] → ¬ (scheme ≡ unknown s)
known_scheme semconv s e h = cc h
known_scheme datadog_compat s e h = cc h
known_scheme both s e h = cc h
known_scheme empty s e h = cc h
known_scheme (unknown t) s e h = cc e

not-false : (b : Bool) → not b ≡ false → b ≡ true
not-false true e = refl
not-false false e = cc e

-- A configuration without validation errors polls on a positive interval, has a subnet or a device, and a
-- naming scheme that is known or left empty; every subnet of it expands and has credentials, every device
-- of it has an endpoint that reads, and all their credentials are valid.
pub validate-IsUsable : (libs : Libraries) (c : Config) → validate libs c ≡ [] → IsUsable libs c
unfolding validate
validate-IsUsable libs c e =
    let targeted = error_if (is_empty c.subnets && is_empty c.devices) no_targets in
    let positive = error_if (not (is_positive c.collection_interval)) bad_interval in
    let pollers = error_if (is_negative c.pollers) negative_pollers in
    let rediscovery =
      error_if (is_negative c.discovery.rediscovery_interval) negative_rediscovery in
    let failures = error_if (is_negative c.discovery.allowed_failures) negative_failures in
    let (front, named, subnets, devices) =
      nil_parts (targeted ++ positive ++ pollers ++ rediscovery ++ failures)
        (scheme_errors (scheme_of c.naming.scheme)) (subnet_errors libs 0 c.subnets)
        (device_errors libs 0 c.devices) e in
    let (start, _, _, _) = nil_parts (targeted ++ positive) pollers rediscovery failures front in
    record {
      positive =
          not-false (is_positive c.collection_interval)
            (no_error_if _ bad_interval (nil_right targeted positive start));
      targeted =
          no_error_if (is_empty c.subnets && is_empty c.devices) no_targets
            (nil_left targeted positive start);
      named = λ s h. known_scheme (scheme_of c.naming.scheme) s named h;
      subnets = subnet_errors-none libs 0 c.subnets subnets;
      devices = device_errors-none libs 0 c.devices devices;
    }
