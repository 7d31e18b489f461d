-- ===== src/Profile/Validate.antt =====
-- internal/profiledefinition/normalize.go: `Validate`, which lists every problem of a profile. An
-- error is a value with the position that its text names; a map is read in the order of its list.
pub mod Sound
use networkdevicereceiver.Base.{
  ℕ, zero, suc, ◌+◌, Bool, true, false, not, ◌&&◌, ◌||◌, ◌==◌, Option, none, some, List, [], ◌∷◌,
  ◌++◌, if◌then◌else◌, length, Str, is_blank, Floats,
}
use networkdevicereceiver.Base.Dict.{Dict}
use networkdevicereceiver.Profile.Definition.{
  MetricType, flag_stream, SymbolConfig, MetricTagConfig, MetricsConfigOption, MetricsConfig,
  is_column, MetadataField, MetadataResourceConfig, ProfileDefinition,
}

pub data SymbolError : Type 0 where
  needs_name needs_oid needs_match_value : SymbolError

pub data TagError : Type 0 where
  needs_tag match_needs_tags tags_need_match needs_symbol_or_index : TagError

pub data MetricError : Type 0 where
  needs_table_oid needs_scalar_oid needs_symbols : MetricError
  needs_placement needs_suffix : MetricError
  bad_symbol : ℕ → SymbolError → MetricError
  bad_scalar : SymbolError → MetricError
  bad_tag : ℕ → TagError → MetricError

pub data ProfileError : Type 0 where
  bad_metric : ℕ → List MetricError → ProfileError
  bad_metric_tag : ℕ → TagError → ProfileError
  needs_field : Str → Str → ProfileError
  bad_id_tag : Str → ℕ → TagError → ProfileError

-- for i := range xs { if err := check(xs[i]); err != nil { errs = append(errs, at(i, err)) } }
unfoldable pub each {ℓ} :
    {A : Type ℓ} {E R : Type 0} → (A → Option E) → (ℕ → E → R) → ℕ → List A → List R
each check at i [] = []
each check at i (x ∷ xs) =
    let rest = each check at (i + 1) xs in elim (check x) [ none ↦ rest | some e ↦ at i e ∷ rest ]

-- errors.Join, which is nil when there are none
unfoldable pub joined {ℓ} : {E : Type ℓ} → List E → Option (List E)
joined [] = none
joined (e ∷ es) = some (e ∷ es)

unfoldable pub when : {E : Type 0} → Bool → E → List E
when b e = if b then e ∷ [] else []

unfoldable pub reported : {E R : Type 0} → (E → R) → Option E → List R
reported at none = []
reported at (some e) = at e ∷ []

abbrev pub is_flag_stream : MetricType → Bool
is_flag_stream t = elim t [ flag_stream ↦ true | _ ↦ false ]

module _ {fl : Floats} where
  unfoldable pub validate_symbol : SymbolConfig fl → Option SymbolError
  validate_symbol s =
      if is_blank s.name
      then some needs_name
      else if is_blank s.oid && not s.constant_value_one
      then some needs_oid
      else if not (is_blank s.match_pattern) && is_blank s.match_value
      then some needs_match_value
      else none

  unfoldable pub validate_tag : MetricTagConfig fl → Option TagError
  validate_tag t =
      if is_blank t.tag && length t.tags == 0
      then some needs_tag
      else if not (is_blank t.match) && length t.tags == 0
      then some match_needs_tags
      else if not (length t.tags == 0) && is_blank t.match
      then some tags_need_match
      else if is_blank t.symbol.oid && t.index == 0
      then some needs_symbol_or_index
      else none

  -- the switch on the shape of the metric
  unfoldable pub validate_shape : MetricsConfig fl → List MetricError
  unfolding is_column
  validate_shape m =
      if is_column m
      then when (is_blank m.table.oid) needs_table_oid
        ++ each validate_symbol bad_symbol 0 m.symbols
      else if not (is_blank m.symbol.oid) || not (is_blank m.symbol.name)
      then reported bad_scalar (validate_symbol m.symbol)
        ++ when (is_blank m.symbol.oid) needs_scalar_oid
      else needs_symbols ∷ []

  unfoldable pub validate_flags : MetricsConfig fl → List MetricError
  validate_flags m =
      if is_flag_stream m.metric_type
      then when (m.options.placement == 0) needs_placement
        ++ when (is_blank m.options.metric_suffix) needs_suffix
      else []

  unfoldable pub validate_metric : MetricsConfig fl → Option (List MetricError)
  unfolding validate_shape validate_flags joined
  validate_metric m =
      joined (validate_shape m ++ validate_flags m ++ each validate_tag bad_tag 0 m.metric_tags)

  unfoldable pub validate_field : MetadataField fl → Bool
  validate_field def = is_blank def.value && is_blank def.symbol.oid && length def.symbols == 0

  unfoldable pub validate_fields : Str → Dict (MetadataField fl) → List ProfileError
  unfolding validate_field
  validate_fields name [] = []
  validate_fields name ((field, def) ∷ fields) =
      when (validate_field def) (needs_field name field) ++ validate_fields name fields

  unfoldable pub validate_metadata : Dict (MetadataResourceConfig fl) → List ProfileError
  unfolding validate_fields
  validate_metadata [] = []
  validate_metadata ((name, res) ∷ rest) =
      validate_fields name res.fields
      ++ each validate_tag (bad_id_tag name) 0 res.id_tags
      ++ validate_metadata rest

  -- Validate: no problem is Go's nil.
  unfoldable pub validate : ProfileDefinition fl → List ProfileError
  unfolding validate_metric validate_metadata
  validate p =
      each validate_metric bad_metric 0 p.metrics
      ++ each validate_tag bad_metric_tag 0 p.metric_tags
      ++ validate_metadata p.metadata
