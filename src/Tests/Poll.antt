-- ===== src/Tests/Poll.antt =====
-- internal/report/builder.go and transform.go, and pollDevice of receiver.go, at concrete inputs.
use networkdevicereceiver.Base.{
  ℕ, ◌+◌, ◌≡◌, refl, str_eq, true, false, none, some, [], ◌∷◌, lit, Str, pos,
}
use networkdevicereceiver.Base.Dict
use networkdevicereceiver.Snmp.Value.{Asn1, octets, number, ResultValue, ValueStore}
use networkdevicereceiver.Snmp.Credentials.{Credentials}
use networkdevicereceiver.Snmp.Fetch.Session.{Session, SnmpError, answered}
use networkdevicereceiver.Profile.Definition.{
  ProfileDefinition, MetricsConfig, MetricType, bare_symbol,
}
use networkdevicereceiver.Profile.Compile.{Compiled}
use networkdevicereceiver.Naming.Registry.{Registry, default_options, generated_entry}
use networkdevicereceiver.Report.Text.{Regexes, Addresses, string_value, string_value_no_compile}
use networkdevicereceiver.Report.Text.Valid.{IsText, string_value-IsText}
use networkdevicereceiver.Report.Resource.{DeviceInfo, resource_attributes}
use networkdevicereceiver.Report.Resource.Identity.{resource_attributes-identity}
use networkdevicereceiver.Report.Pool.{Stream}
use networkdevicereceiver.Report.Builder.Build.{Builder, Built, build}
use networkdevicereceiver.Report.Builder.Build.Poll.{build-start_times, IsStartedAt}
use networkdevicereceiver.Config.{Config, Libraries, create_default_config}
use networkdevicereceiver.Discovery.Registry.{Device}
use networkdevicereceiver.Discovery.Scan.{Transport}
use networkdevicereceiver.Receiver.Poll.{Profiles, Receiver, poll_device}
use networkdevicereceiver.Receiver.Poll.Others.{StepApart}
use networkdevicereceiver.Receiver.Poll.Isolated.{poll_device-apart}
use networkdevicereceiver.Tests.Floats.{whole}

-- A pattern is a word, which matches itself.
abbrev words : Regexes
words = record {
  R = Str;
  compile = some;
  submatch = λ r s. some (r ∷ []);
  expand = λ r template s. some template;
}

abbrev plain : Addresses
plain = record { print_octets = λ s. none }

abbrev uptime : MetricsConfig whole
uptime = record {
  mib = lit "M";
  table = bare_symbol whole [] [];
  symbols = [];
  symbol = bare_symbol whole (lit "1.3") (lit "up");
  metric_tags = [];
  static_tags = [];
  metric_type = MetricType.unset;
  options = record { placement = 0; metric_suffix = [] };
  forced_type = MetricType.unset;
  oid = [];
  name = [];
}

abbrev router_document : ProfileDefinition whole
router_document = record {
  name = lit "r";
  description = [];
  sys_object_ids = [];
  extends = [];
  metrics = uptime ∷ [];
  metric_tags = [];
  static_tags = lit "site:a" ∷ [];
  metadata = [];
  device_vendor = [];
}

abbrev router_profile : Compiled whole Str
router_profile = record {
  name = lit "r";
  definition = router_document;
  scalar_oids = lit "1.3" ∷ [];
  column_oids = [];
  regexes = [];
  missing = [];
}

abbrev curated : Registry whole
curated = record {
  opts = default_options;
  entries = (lit "up", generated_entry (lit "system.uptime")) ∷ [];
  system_entries = [];
}

abbrev info : DeviceInfo
info = record {
  id = lit "10.0.0.1";
  address = lit "10.0.0.1";
  port = 161;
  subnet = [];
  sys_object_id = lit "1.3.6";
  profile_name = lit "r";
}

abbrev answered_seven : ValueStore whole
answered_seven = record {
  scalars = (lit "1.3", record { value = number (pos 7); tag = Asn1.integer }) ∷ [];
  columns = [];
}

abbrev after_a_poll : Builder whole
after_a_poll = record { registry = curated; start_times = (lit "up|", 4) ∷ []; prev_counters = [] }

abbrev next_build : Built whole × Builder whole
next_build = build whole plain words info router_profile answered_seven 9 after_a_poll

build-start_times_example :
    (Dict.lookup (lit "up|") next_build.1.start_times ≡ some 4)
    × ((s : Stream)
        → Dict.lookup (lit "up|") next_build.0.pool.streams ≡ some s
        → IsStartedAt whole next_build.0.pool (lit "up|") s 4)
unfolding Dict.lookup str_eq
build-start_times_example =
    build-start_times whole plain words info router_profile answered_seven 9 after_a_poll
      (lit "up|") 4 refl

resource_attributes-identity_example :
    (Dict.lookup
        (lit "host.id")
        (resource_attributes info ((lit "name", lit "core") ∷ []) ((lit "host.id", lit "x") ∷ []))
      ≡ some (lit "10.0.0.1"))
    × (name : Str) × (Dict.lookup
          (lit "host.name")
          (resource_attributes info ((lit "name", lit "core") ∷ []) ((lit "host.id", lit "x") ∷ []))
        ≡ some name)
resource_attributes-identity_example =
    resource_attributes-identity info ((lit "name", lit "core") ∷ [])
      ((lit "host.id", lit "x") ∷ [])

-- Two bytes that are no UTF-8.
abbrev raw_bytes : ResultValue whole
raw_bytes = record { value = octets (255 ∷ 1 ∷ []); tag = Asn1.octet_string }

string_value-IsText_example :
    IsText
      (string_value plain words router_profile (bare_symbol whole (lit "1.3") (lit "up")) raw_bytes)
    × IsText (string_value_no_compile plain (bare_symbol whole (lit "1.3") (lit "up")) raw_bytes)
string_value-IsText_example =
    string_value-IsText plain words router_profile (bare_symbol whole (lit "1.3") (lit "up"))
      raw_bytes

abbrev deaf : Session whole ℕ
deaf = record {
  get = λ oids w.
      (answered (record { status = SnmpError.no_error; error_index = 0; variables = [] }), w + 1);
  get_bulk = λ oids n w.
      (answered (record { status = SnmpError.no_error; error_index = 0; variables = [] }), w);
  get_next = λ oids w.
      (answered (record { status = SnmpError.no_error; error_index = 0; variables = [] }), w);
  supports_get_bulk = true;
  ctx_err = λ w. (none, w);
}

abbrev network : Transport whole ℕ
network = record {
  dial = λ cfg w. (some (record { session = deaf; connect = λ v. (true, v); close = λ v. v }), w);
  is_done = λ w. (false, w);
  now = λ w. (w, w);
}

abbrev library : Profiles whole Str
library = record { find = λ id. some (lit "r"); load = λ name. some router_profile }

abbrev texts : Libraries
texts = record {
  nets = record { parse_prefix = λ s. none; print = λ v n. [] };
  parse_url = λ s. none;
  split_host_port = λ s. none;
  is_ip = λ s. true;
}

abbrev public_community : Credentials
public_community = record {
  version = lit "2c";
  community = lit "public";
  user = [];
  auth_protocol = [];
  auth_key = [];
  priv_protocol = [];
  priv_key = [];
  context_name = [];
}

abbrev one_device : Config
one_device = record create_default_config {
  devices = record { endpoint = lit "10.0.0.1"; inline = public_community; profile = lit "r" } ∷ [];
}

abbrev configured : Str → Device
configured address = record {
  id = address;
  address = address;
  port = 161;
  subnet = [];
  auth_index = 0;
  sys_object_id = [];
  profile_name = lit "r";
  failures = 0;
  static = true;
  last_seen = 1;
}

abbrev two_devices : Receiver whole Str ℕ
two_devices = record {
  devices = record {
    devices =
        (lit "10.0.0.1", configured (lit "10.0.0.1"))
        ∷ (lit "10.0.0.2", configured (lit "10.0.0.2"))
        ∷ [];
    allowed_failures = 3;
  };
  states = [];
  world = 0;
}

other_device : str_eq (lit "10.0.0.1") (lit "10.0.0.2") ≡ false
unfolding str_eq
other_device = refl

poll_device-apart_example : StepApart whole plain words ℕ (lit "10.0.0.2") two_devices (
    poll_device whole plain words ℕ curated library network
      (λ built w. (true, w))
      5
      texts
      one_device
      (configured (lit "10.0.0.1"))
      two_devices)
poll_device-apart_example =
    poll_device-apart whole plain words ℕ (configured (lit "10.0.0.1")) (lit "10.0.0.2")
      other_device two_devices curated library network (λ built w. (true, w)) 5 texts one_device
