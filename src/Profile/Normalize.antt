-- ===== src/Profile/Normalize.antt =====
-- internal/profiledefinition/normalize.go: legacy spellings become the current schema.
pub mod Idempotent
use networkdevicereceiver.Base.{
  Bool, true, false, not, ◌&&◌, Option, none, some, List, [], ◌∷◌, map, if◌then◌else◌, Str, lit,
  is_blank, Floats,
}
use networkdevicereceiver.Base.Dict
use networkdevicereceiver.Base.Dict.{Dict}
use networkdevicereceiver.Profile.Definition.{
  MetricType, unset, gauge, rate, counter, percent, SymbolConfig, bare_symbol, MetricTagConfig,
  MetricsConfig, MetadataField, MetadataResourceConfig, ProfileDefinition,
}

unfoldable pub normalize_type : MetricType → MetricType
normalize_type counter = rate
normalize_type percent = gauge
normalize_type t = t

abbrev pub is_unset : MetricType → Bool
is_unset unset = true
is_unset _ = false

module _ (fl : Floats) where
  abbrev pub normal_symbol : SymbolConfig fl → SymbolConfig fl
  normal_symbol s = record s { metric_type = normalize_type s.metric_type }

  -- `column:` is an older spelling of `symbol:`.
  pub take_column : MetricTagConfig fl → MetricTagConfig fl
  take_column t =
      if is_blank t.symbol.oid && not (is_blank t.column.oid)
      then record t { symbol = t.column; column = bare_symbol fl [] [] }
      else t

  -- Inline OID and name on the tag itself.
  pub take_inline : MetricTagConfig fl → MetricTagConfig fl
  take_inline t =
      if is_blank t.symbol.oid && not (is_blank t.oid)
      then record t { symbol = bare_symbol fl t.oid t.name; oid = [] }
      else t

  unfoldable pub normalize_tag : MetricTagConfig fl → MetricTagConfig fl
  unfolding take_column take_inline
  normalize_tag t = take_inline (take_column t)

  unfoldable pub normalize_tags : List (MetricTagConfig fl) → List (MetricTagConfig fl)
  normalize_tags = map normalize_tag

  pub force_type : MetricsConfig fl → MetricsConfig fl
  force_type m =
      let t =
        if is_unset m.metric_type && not (is_unset m.forced_type)
        then m.forced_type
        else m.metric_type in
      record m { metric_type = normalize_type t; forced_type = unset }

  -- The legacy scalar form: OID and name directly on the entry.
  pub take_scalar : MetricsConfig fl → MetricsConfig fl
  take_scalar m =
      if is_blank m.symbol.oid && not (is_blank m.oid)
      then record m { symbol = bare_symbol fl m.oid m.name; oid = []; name = [] }
      else m

  pub normal_parts : MetricsConfig fl → MetricsConfig fl
  normal_parts m = record m {
    symbols = map normal_symbol m.symbols;
    symbol = normal_symbol m.symbol;
    metric_tags = normalize_tags m.metric_tags;
  }

  unfoldable pub normalize_metric : MetricsConfig fl → MetricsConfig fl
  unfolding force_type take_scalar normal_parts
  normalize_metric m = normal_parts (take_scalar (force_type m))

  unfoldable pub normalize_resource : MetadataResourceConfig fl → MetadataResourceConfig fl
  normalize_resource res = record res { id_tags = normalize_tags res.id_tags }

  unfoldable pub map_values {ℓ} : {A : Type ℓ} → (A → A) → Dict A → Dict A
  map_values f [] = []
  map_values f ((k, v) ∷ m) = (k, f v) ∷ map_values f m

  abbrev pub resource_or_new : Option (MetadataResourceConfig fl) → MetadataResourceConfig fl
  resource_or_new none = record { fields = []; id_tags = [] }
  resource_or_new (some res) = res

  abbrev pub or_vendor :
      Option (MetadataField fl) → Str → Dict (MetadataField fl) → Dict (MetadataField fl)
  or_vendor (some field) vendor fields = fields
  or_vendor none vendor fields =
      Dict.insert (lit "vendor")
        (record { symbol = bare_symbol fl [] []; symbols = []; value = vendor }) fields

  -- The legacy `device: {vendor: x}` becomes a constant metadata field.
  pub fold_vendor : ProfileDefinition fl → ProfileDefinition fl
  fold_vendor p =
      let dev = resource_or_new (Dict.lookup (lit "device") p.metadata) in
      let dev' = record dev {
        fields = or_vendor (Dict.lookup (lit "vendor") dev.fields) p.device_vendor dev.fields;
      } in
      record p { metadata = Dict.insert (lit "device") dev' p.metadata; device_vendor = [] }

  abbrev pub normalize_parts : ProfileDefinition fl → ProfileDefinition fl
  normalize_parts p = record p {
    metrics = map normalize_metric p.metrics;
    metric_tags = normalize_tags p.metric_tags;
    metadata = map_values normalize_resource p.metadata;
  }

  unfoldable pub normalize : ProfileDefinition fl → ProfileDefinition fl
  unfolding fold_vendor
  normalize p =
      let p' = normalize_parts p in if is_blank p.device_vendor then p' else fold_vendor p'
