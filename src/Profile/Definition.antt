-- ===== src/Profile/Definition.antt =====
-- internal/profiledefinition/definition.go: one profile document, after the YAML decoder.
use networkdevicereceiver.Base.{ℕ, Bool, true, false, List, [], ◌∷◌, Str, Floats, pos}
use networkdevicereceiver.Base.Dict.{Dict}

-- ProfileMetricType: the constants, the empty string and any other text.
pub data MetricType : Type 0 where
  unset gauge monotonic_count monotonic_count_and_rate rate flag_stream counter percent : MetricType
  unknown : Str → MetricType

pub record SymbolConfig (fl : Floats) : Type 0 where
  pub oid : Str
  pub name : Str
  pub extract_value : Str
  pub match_pattern : Str
  pub match_value : Str
  pub scale_factor : fl.F
  pub format : Str
  pub constant_value_one : Bool
  pub metric_type : MetricType

-- SymbolConfig{OID: oid, Name: name}, and SymbolConfig{} at empty texts
abbrev pub bare_symbol : (fl : Floats) → Str → Str → SymbolConfig fl
bare_symbol fl oid name = record {
  oid = oid;
  name = name;
  extract_value = [];
  match_pattern = [];
  match_value = [];
  scale_factor = fl.of_int (pos 0);
  format = [];
  constant_value_one = false;
  metric_type = unset;
}

pub record MetricIndexTransform : Type 0 where
  pub start : ℕ
  pub end : ℕ

pub record MetricTagConfig (fl : Floats) : Type 0 where
  pub tag : Str
  pub symbol : SymbolConfig fl
  pub table : Str
  pub mib : Str
  pub index : ℕ
  pub index_transform : List MetricIndexTransform
  pub mapping : Dict Str
  pub match : Str
  pub tags : Dict Str
  pub oid : Str
  pub name : Str
  pub column : SymbolConfig fl

pub record MetricsConfigOption : Type 0 where
  pub placement : ℕ
  pub metric_suffix : Str

pub record MetricsConfig (fl : Floats) : Type 0 where
  pub mib : Str
  pub table : SymbolConfig fl
  pub symbols : List (SymbolConfig fl)
  pub symbol : SymbolConfig fl
  pub metric_tags : List (MetricTagConfig fl)
  pub static_tags : List Str
  pub metric_type : MetricType
  pub options : MetricsConfigOption
  pub forced_type : MetricType
  pub oid : Str
  pub name : Str

unfoldable pub is_column : {fl : Floats} → MetricsConfig fl → Bool
is_column m = elim m.symbols [ [] ↦ false | s ∷ ss ↦ true ]

pub record MetadataField (fl : Floats) : Type 0 where
  pub symbol : SymbolConfig fl
  pub symbols : List (SymbolConfig fl)
  pub value : Str

pub record MetadataResourceConfig (fl : Floats) : Type 0 where
  pub fields : Dict (MetadataField fl)
  pub id_tags : List (MetricTagConfig fl)

-- `device` is the legacy vendor of the top-level `device:` block. A nil map and an empty one are
-- alike to every reader.
pub record ProfileDefinition (fl : Floats) : Type 0 where
  pub name : Str
  pub description : Str
  pub sys_object_ids : List Str
  pub extends : List Str
  pub metrics : List (MetricsConfig fl)
  pub metric_tags : List (MetricTagConfig fl)
  pub static_tags : List Str
  pub metadata : Dict (MetadataResourceConfig fl)
  pub device_vendor : Str
