-- ===== src/Tests/Profile.antt =====
-- internal/profile at concrete inputs.
use networkdevicereceiver.Base.{All, ◌≡◌, refl, List, [], ◌∷◌, Str, lit, str_eq}
use networkdevicereceiver.Base.Dict
use networkdevicereceiver.Base.Dict.{Dict}
use networkdevicereceiver.Profile.Definition.{
  ProfileDefinition, MetricsConfig, bare_symbol, is_column, gauge, flag_stream, unset,
}
use networkdevicereceiver.Profile.Normalize.{normalize}
use networkdevicereceiver.Profile.Validate.{
  validate, validate_metric, validate_shape, validate_flags, validate_symbol, validate_metadata,
  validate_fields, validate_field, each, joined, when, reported,
}
use networkdevicereceiver.Profile.Normalize.Idempotent.{normalize_idem}
use networkdevicereceiver.Profile.Validate.Sound.{IsCollected, IsTagged, validate-IsCollected}
use networkdevicereceiver.Profile.Store.Resolve.{Merges, resolve-Merges}
use networkdevicereceiver.Tests.Floats.{whole}

abbrev inline_metric : MetricsConfig whole
inline_metric = record {
  mib = [];
  table = bare_symbol whole [] [];
  symbols = [];
  symbol = bare_symbol whole [] [];
  metric_tags = [];
  static_tags = [];
  metric_type = unset;
  options = record { placement = 0; metric_suffix = [] };
  forced_type = gauge;
  oid = lit "1.3";
  name = lit "m";
}

abbrev profile : Str → List Str → ProfileDefinition whole
profile name extends = record {
  name = name;
  description = [];
  sys_object_ids = [];
  extends = extends;
  metrics = inline_metric ∷ [];
  metric_tags = [];
  static_tags = [];
  metadata = [];
  device_vendor = lit "v";
}

normalize_idem_example :
    normalize whole (normalize whole (profile (lit "a") []))
    ≡ normalize whole (profile (lit "a") [])
normalize_idem_example = normalize_idem whole (profile (lit "a") [])

-- two profiles that extend each other
abbrev cycle : Dict (ProfileDefinition whole)
cycle =
    (lit "a", profile (lit "a") (lit "b.yaml" ∷ []))
    ∷ (lit "b", profile (lit "b") (lit "a" ∷ []))
    ∷ []

resolve-Merges_example : Merges cycle (lit "a") (profile (lit "a") (lit "b.yaml" ∷ []))
unfolding Dict.lookup str_eq
resolve-Merges_example = resolve-Merges cycle (lit "a") (profile (lit "a") (lit "b.yaml" ∷ [])) refl

-- a flag stream with a place and a suffix
abbrev flag_metric : MetricsConfig whole
flag_metric = record inline_metric {
  symbol = bare_symbol whole (lit "1.3") (lit "m");
  metric_type = flag_stream;
  options = record { placement = 2; metric_suffix = lit "s" };
}

abbrev flags : ProfileDefinition whole
flags = record (profile (lit "f") []) { metrics = flag_metric ∷ [] }

validate-IsCollected_example :
    All IsCollected (flag_metric ∷ [])
    × All (IsTagged {fl = whole}) []
    × All (λ e. All IsTagged e.1.id_tags) flags.metadata
unfolding validate validate_metric validate_shape validate_flags validate_symbol validate_metadata
    validate_fields validate_field each joined when reported is_column
validate-IsCollected_example = validate-IsCollected flags refl
