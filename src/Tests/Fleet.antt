-- ===== src/Tests/Fleet.antt =====
-- config.go, ExpandCIDR and Scan, Match, and the registered devices of receiver.go at concrete inputs.
use networkdevicereceiver.Base.{
  ℕ, ◌+◌, ◌≡◌, refl, arith, true, false, Option, none, some, List, [], ◌∷◌, All, if◌then◌else◌, lit,
  Str, str_eq, print_nat, pos, str_compare, int_less, trim_space, has_prefix, contains_byte,
  trim_prefix,
}
use networkdevicereceiver.Base.Dict
use networkdevicereceiver.Base.Sort.{sort, place, str_less}
use networkdevicereceiver.Snmp.Value.{Asn1}
use networkdevicereceiver.Snmp.Value
use networkdevicereceiver.Snmp.Credentials.{
  Credentials, snmp_version, validate as validate_credentials,
}
use networkdevicereceiver.Snmp.Fetch.Session.{Session, SnmpError, answered}
use networkdevicereceiver.Discovery.Subnet.{
  Prefix, Nets, expanded, expand_cidr, limit_of, masked, host_count, size, contains, next,
  contains_next, skip_edges, is_wanted, hosts_from, print_all,
}
use networkdevicereceiver.Discovery.Subnet.Expand.{expansion, expand_cidr-hosts}
use networkdevicereceiver.Discovery.Registry.{Device, Registry}
use networkdevicereceiver.Discovery.Scan
use networkdevicereceiver.Discovery.Scan.{Transport, ScanError, scan}
use networkdevicereceiver.Discovery.Scan.Found.{IsFoundAmong, addresses_of, scan-found}
use networkdevicereceiver.Profile.Match.{
  Globs, IndexEntry, Index, pick_for_pattern, pick_sorted, claims_before, match_profile,
}
use networkdevicereceiver.Profile.Match.Chosen.{Explains, trimmed_id, match_profile-Explains}
use networkdevicereceiver.Config.{
  Config, Libraries, create_default_config, parse_endpoint, contains_text, scheme_of,
}
use networkdevicereceiver.Config.Validation.{
  validate, subnet_errors, device_errors, validate_device, authentication_errors,
}
use networkdevicereceiver.Config.Usable.{IsUsable, validate-IsUsable}
use networkdevicereceiver.Receiver.Fleet.{seed_static_devices}
use networkdevicereceiver.Receiver.Fleet.Shadows.{IsUnshadowed}
use networkdevicereceiver.Receiver.Fleet.Changes.{Change, finds, fails, changes}
use networkdevicereceiver.Receiver.Fleet.Unshadowed.{AreHosts, changes-IsUnshadowed}
use networkdevicereceiver.Tests.Floats.{whole}

-- A net is read off one text, and an address printed as a number.
abbrev small_nets : Nets
small_nets = record {
  parse_prefix = λ s.
      if str_eq s (lit "10.0.0.8/29")
      then some (record { is4 = true; addr = 167772172; bits = 29 })
      else none;
  print = λ is4 a. print_nat a;
}

abbrev quarter : Prefix
quarter = record { is4 = true; addr = 167772172; bits = 29 }

-- Without the network's own address, ...8, and the broadcast address, ...15.
expand_cidr-run :
    expand_cidr small_nets (lit "10.0.0.8/29") (pos 0)
    ≡ expanded (
        lit "167772169"
        ∷ lit "167772170"
        ∷ lit "167772171"
        ∷ lit "167772172"
        ∷ lit "167772173"
        ∷ lit "167772174"
        ∷ [])
unfolding expand_cidr size contains next contains_next skip_edges is_wanted hosts_from print_all
    masked host_count limit_of print_nat str_eq
expand_cidr-run = refl

expand_cidr-hosts_example :
    expand_cidr small_nets (lit "10.0.0.8/29") (pos 0)
    ≡ expansion small_nets quarter (limit_of (pos 0))
unfolding str_eq limit_of
expand_cidr-hosts_example =
    expand_cidr-hosts small_nets (lit "10.0.0.8/29") (pos 0) quarter refl
      (record { fits = omega arith; in_family = omega arith }) (omega arith)

abbrev public_community : Credentials
public_community = record {
  version = lit "2c";
  community = lit "public";
  user = [];
  auth_protocol = [];
  auth_key = [];
  priv_protocol = [];
  priv_key = [];
  context_name = [];
}

abbrev small_subnet : Scan.SubnetConfig
small_subnet = record {
  network = lit "10.0.0.8/29";
  port = 161;
  credentials = public_community ∷ [];
  ignored_addresses = lit "167772170" ∷ [];
  timeout = pos 5;
  retries = pos 1;
  max_hosts = pos 0;
}

-- It answers every GET with a name.
abbrev named_device : Session whole ℕ
named_device = record {
  get = λ oids w. (
    answered (record {
      status = SnmpError.no_error;
      error_index = 0;
      variables =
          record {
            name = lit "1.3.6.1.2.1.1.2.0";
            tag = Asn1.octet_string;
            value = Value.Any.bytes (lit "1.3.9");
          }
          ∷ [];
    }),
    w + 1,
  );
  get_bulk = λ oids n w.
      (answered (record { status = SnmpError.no_error; error_index = 0; variables = [] }), w);
  get_next = λ oids w.
      (answered (record { status = SnmpError.no_error; error_index = 0; variables = [] }), w);
  supports_get_bulk = true;
  ctx_err = λ w. (none, w);
}

abbrev lan : Transport whole ℕ
lan = record {
  dial = λ cfg w.
      (some (record { session = named_device; connect = λ v. (true, v); close = λ v. v }), w);
  is_done = λ w. (false, w);
  now = λ w. (w, w);
}

scan-found_example :
    (found : List Device) × (err : Option ScanError) × (w : ℕ) × (scan whole lan small_subnet
        small_nets 0
      ≡ some ((found, err), w))
    × All
        (IsFoundAmong whole lan small_subnet (
          addresses_of whole lan small_subnet (expand_cidr small_nets (lit "10.0.0.8/29") (pos 0))))
        found
scan-found_example = scan-found whole lan small_subnet small_nets 0

abbrev pub texts : Libraries
texts = record {
  nets = small_nets;
  parse_url = λ s. none;
  split_host_port = λ s. none;
  is_ip = λ s. true;
}

abbrev pub one_device : Config
one_device = record create_default_config {
  storage = some (lit "file");
  devices = record { endpoint = lit "host"; inline = public_community; profile = lit "r" } ∷ [];
}

pub accepted : validate texts one_device ≡ []
unfolding validate subnet_errors device_errors validate_device authentication_errors parse_endpoint
    contains_text validate_credentials create_default_config scheme_of int_less str_eq trim_space
    has_prefix contains_byte snmp_version trim_prefix
accepted = refl

validate-IsUsable_example : IsUsable texts one_device
validate-IsUsable_example = validate-IsUsable texts one_device accepted

abbrev stale_twin : Device
stale_twin = record {
  id = lit "host|10.0.0.0/24";
  address = lit "host";
  port = 161;
  subnet = lit "10.0.0.0/24";
  auth_index = 0;
  sys_object_id = lit "1.3.9";
  profile_name = lit "q";
  failures = 0;
  static = false;
  last_seen = 1;
}

abbrev restored : Registry
restored = record { devices = (lit "host|10.0.0.0/24", stale_twin) ∷ []; allowed_failures = 3 }

abbrev a_day : List Change
a_day = finds (stale_twin ∷ []) ∷ fails (lit "host") ∷ []

changes-IsUnshadowed_example :
    ((seed_static_devices texts one_device 7 restored).1 ≡ none)
    × AreHosts texts one_device.devices
        (changes
          (λ id. some (lit "r"))
          a_day
          (seed_static_devices texts one_device 7 restored).0).static_hosts
    × IsUnshadowed
        (changes
          (λ id. some (lit "r"))
          a_day
          (seed_static_devices texts one_device 7 restored).0).static_hosts
        (changes
          (λ id. some (lit "r"))
          a_day
          (seed_static_devices texts one_device 7 restored).0).registry.devices
unfolding Dict.lookup
changes-IsUnshadowed_example =
    changes-IsUnshadowed (λ id. some (lit "r")) texts one_device 7 restored a_day accepted
      (refl, refl, tt)

abbrev embedded : Str → IndexEntry
embedded name = record { pattern = lit "1.3.*"; profile = name; user = false }

abbrev own : IndexEntry
own = record { pattern = lit "1.3.*"; profile = lit "own"; user = true }

own_wins : pick_for_pattern (embedded (lit "a") ∷ own ∷ embedded (lit "b") ∷ []) ≡ some (own, [])
unfolding pick_for_pattern pick_sorted claims_before sort place str_less str_compare
own_wins = refl

-- Every pattern matches every identifier.
abbrev all_match : Globs
all_match = record { glob = λ pattern id. some true }

abbrev small_index : Index
small_index = record { entries = embedded (lit "a") ∷ own ∷ []; conflicts = [] }

match_profile-Explains_example :
    Explains all_match small_index
      (trimmed_id all_match (lit ".1.3.6"))
      (match_profile all_match small_index (lit ".1.3.6"))
match_profile-Explains_example = match_profile-Explains all_match small_index (lit ".1.3.6")
