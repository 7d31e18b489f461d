-- ===== src/Report/Builder/Build.antt =====
-- internal/report/builder.go: `Build`, from the values of one poll to the metrics of the device.

pub mod Keeps
pub mod Poll
use networkdevicereceiver.Base.{
  ℕ, suc, ◌+◌, Bool, true, false, not, ◌&&◌, Option, none, some, List, [], ◌∷◌, ◌++◌, if◌then◌else◌,
  length, is_empty, Str, lit, is_blank, ℤ, pos, Floats,
}
use networkdevicereceiver.Base.Dict
use networkdevicereceiver.Base.Dict.{Dict}
use networkdevicereceiver.Snmp.Value.{ResultValue, ValueStore, scalar}
use networkdevicereceiver.Profile.Definition.{
  SymbolConfig, MetricsConfig, is_column, ProfileDefinition,
}
use networkdevicereceiver.Profile.Validate.{is_flag_stream}
use networkdevicereceiver.Profile.Compile.{Compiled, StrSet}
use networkdevicereceiver.Naming.Registry
use networkdevicereceiver.Naming.Registry.{Instrument, Entry, Resolution, resolve}
use networkdevicereceiver.Report.Text.{Regexes, Addresses}
use networkdevicereceiver.Report.Tags.{
  TagResolver, TagError, row_tags, device_tags, merge_tags, static_tags,
}
use networkdevicereceiver.Report.Row.{
  rows_for, sorted_indexes, component_prefix, build_attributes, instrument_for,
  effective_metric_type,
}
use networkdevicereceiver.Report.Resource.{DeviceInfo, resource_attributes, device_metadata}
use networkdevicereceiver.Report.Pool.{Pool, Metric, new_metric_pool}
use networkdevicereceiver.Report.Derived.{Sample, Derived, emit_bandwidth_utilization}
use networkdevicereceiver.Report.Builder.{
  EmitError, bad_tags, bad_value, Emitting, Emitted, skip, numeric_value, Dispatched, dispatched,
  not_dispatched, dispatch_sensor, note_names, emit_names,
}

abbrev pub tag_errors : List TagError → List EmitError
tag_errors [] = []
tag_errors (e ∷ es) = bad_tags (e ∷ es) ∷ []

module _ (fl : Floats) (ad : Addresses) (re : Regexes) (reg : Registry.Registry fl)
    (r : TagResolver fl re) (ts : ℕ) where
  -- The suffix of a flag stream is part of the name.
  abbrev pub lookup_name : MetricsConfig fl → SymbolConfig fl → Str
  lookup_name m sym =
      if is_flag_stream m.metric_type then sym.name ++ m.options.metric_suffix else sym.name

  abbrev pub resolution_of :
      MetricsConfig fl → SymbolConfig fl → Str → Resolution fl → Dispatched fl
  resolution_of m sym index res = elim res.entry.type_dispatch [
    | none ↦ dispatched res
    | some td ↦ dispatch_sensor fl reg r.store m td (lookup_name m sym) index
  ]

  abbrev chosen_instrument :
      MetricsConfig fl → SymbolConfig fl → ResultValue fl → Resolution fl → Instrument
  chosen_instrument m sym v res =
      if res.generated
      then instrument_for fl (effective_metric_type m sym) v
      else res.entry.instrument

  abbrev noted : Resolution fl → Emitting fl → Emitting fl
  noted res s = record s {
    generated = if res.generated then note_names fl res.names s.generated else s.generated;
  }

  abbrev pub emit_number :
      MetricsConfig fl
      → SymbolConfig fl
      → ResultValue fl
      → Dict Str
      → Str
      → Str
      → Resolution fl
      → Option fl.F
      → Emitting fl
      → Emitted fl
  emit_number m sym v attrs component index res none s = (skip s, bad_value sym.name ∷ [])
  emit_number m sym v attrs component index res (some number) s =
      emit_names fl res (chosen_instrument m sym v res) v number
        (λ name. build_attributes fl res.entry attrs name component index sym.name) ts res.names
        (noted res s)

  abbrev pub emit_resolved :
      MetricsConfig fl
      → SymbolConfig fl
      → ResultValue fl
      → Dict Str
      → Str
      → Str
      → Dispatched fl
      → Emitting fl
      → Emitted fl
  emit_resolved m sym v attrs component index (not_dispatched skipped e) s =
      (if skipped then skip s else s, e ∷ [])
  emit_resolved m sym v attrs component index (dispatched res) s =
      emit_number m sym v attrs component index res (numeric_value fl m sym v res.entry) s

  unfoldable pub emit_symbol :
      MetricsConfig fl
      → SymbolConfig fl
      → ResultValue fl
      → Dict Str
      → Str
      → Str
      → Emitting fl
      → Emitted fl
  emit_symbol m sym v attrs component index s =
      emit_resolved m sym v attrs component index
        (resolution_of m sym index (resolve reg m.mib (lookup_name m sym))) s

  -- An absent scalar is skipped, without an error.
  abbrev pub emit_scalar :
      MetricsConfig fl → Dict Str → Option (ResultValue fl) → Emitting fl → Emitted fl
  emit_scalar m static none s = (skip s, [])
  emit_scalar m static (some v) s =
      let (tags, errs) = device_tags fl ad re r m.metric_tags in
      let (s', failed) = emit_symbol m m.symbol v (merge_tags (static ∷ tags ∷ []) []) [] [] s in
      (s', tag_errors errs ++ failed)

  unfoldable pub emit_scalar_metric : MetricsConfig fl → Dict Str → Emitting fl → Emitted fl
  unfolding emit_symbol
  emit_scalar_metric m static s = emit_scalar m static (scalar fl r.store m.symbol.oid) s

  -- `rowTagCache`, and the errors of what is not in it yet
  abbrev pub Cache : Type 0
  Cache = Dict (Dict Str)

  abbrev cached_or :
      MetricsConfig fl → Str → Cache → Option (Dict Str) → Dict Str × List EmitError × Cache
  cached_or m index cache (some tags) = (tags, [], cache)
  cached_or m index cache none =
      let (tags, errs) = row_tags fl ad re r m.metric_tags index in
      (tags, tag_errors errs, Dict.insert index tags cache)

  abbrev pub emit_cell :
      MetricsConfig fl
      → SymbolConfig fl
      → Dict Str
      → Str
      → Str
      → Dict Str
      → Option (ResultValue fl)
      → Emitting fl
      → Emitted fl
  emit_cell m sym static component index tags none s = (s, [])
  emit_cell m sym static component index tags (some v) s =
      emit_symbol m sym v (merge_tags (static ∷ tags ∷ []) []) component index s

  -- The rows of one symbol, in order.
  unfoldable pub emit_rows :
      MetricsConfig fl
      → SymbolConfig fl
      → Dict Str
      → Str
      → Dict (ResultValue fl)
      → List Str
      → Cache
      → Emitting fl
      → Emitted fl × Cache
  unfolding emit_symbol
  emit_rows m sym static component rows [] cache s = ((s, []), cache)
  emit_rows m sym static component rows (index ∷ indexes) cache s =
      let (tags, errs, cache') = cached_or m index cache (Dict.lookup index cache) in
      let (s', failed) = emit_cell m sym static component index tags (Dict.lookup index rows) s in
      let ((last, later), final) = emit_rows m sym static component rows indexes cache' s' in
      ((last, errs ++ failed ++ later), final)

  abbrev pub emit_column :
      MetricsConfig fl
      → SymbolConfig fl
      → Dict Str
      → Str
      → Option (Dict (ResultValue fl))
      → Cache
      → Emitting fl
      → Emitted fl × Cache
  emit_column m sym static component none cache s = ((skip s, []), cache)
  emit_column m sym static component (some rows) cache s =
      emit_rows m sym static component rows (sorted_indexes rows) cache s

  unfoldable pub emit_columns :
      MetricsConfig fl → Dict Str → Str → List (SymbolConfig fl) → Cache → Emitting fl → Emitted fl
  unfolding emit_rows
  emit_columns m static component [] cache s = (s, [])
  emit_columns m static component (sym ∷ syms) cache s =
      let ((s', errs), cache') =
        emit_column m sym static component (rows_for fl r.store m sym) cache s in
      let (last, later) = emit_columns m static component syms cache' s' in (last, errs ++ later)

  unfoldable pub emit_table_metric : MetricsConfig fl → Dict Str → Emitting fl → Emitted fl
  unfolding emit_columns
  emit_table_metric m static s =
      emit_columns m static (component_prefix fl.letters m.table.name m.table.oid) m.symbols [] s

  unfoldable pub emit_metric : MetricsConfig fl → Dict Str → Emitting fl → Emitted fl
  unfolding emit_table_metric emit_scalar_metric
  emit_metric m profile_static s =
      let static = merge_tags (profile_static ∷ static_tags m.static_tags ∷ []) [] in
      if is_column m then emit_table_metric m static s else emit_scalar_metric m static s

  unfoldable pub emit_metrics : List (MetricsConfig fl) → Dict Str → Emitting fl → Emitted fl
  unfolding emit_metric
  emit_metrics [] static s = (s, [])
  emit_metrics (m ∷ ms) static s =
      let (s', errs) = emit_metric m static s in
      let (last, later) = emit_metrics ms static s' in (last, errs ++ later)

-- One device's builder between polls.
pub record Builder (fl : Floats) : Type 0 where
  pub registry : Registry.Registry fl
  pub start_times : Dict ℕ
  pub prev_counters : Dict (Sample fl)

unfoldable pub new_builder : {fl : Floats} → Registry.Registry fl → Builder fl
new_builder reg = record { registry = reg; start_times = []; prev_counters = [] }

unfoldable pub points_of : List Metric → ℕ
points_of [] = 0
points_of (m ∷ ms) = length m.points + points_of ms

-- The metrics, their resource, what the report counts, and the errors.
pub record Built (fl : Floats) : Type 0 where
  pub resource : Dict Str
  pub pool : Pool fl
  pub generated : StrSet
  pub skipped : ℕ
  pub data_points : ℕ
  pub errs : List EmitError

module _ (fl : Floats) (ad : Addresses) (re : Regexes) where
  unfoldable pub build :
      DeviceInfo → Compiled fl re.R → ValueStore fl → ℕ → Builder fl → Built fl × Builder fl
  unfolding emit_metrics points_of
  build dev compiled store now b =
      let def = compiled.definition in
      let r : TagResolver fl re = record { compiled = compiled; store = store } in
      let (tags, tag_errs) = device_tags fl ad re r def.metric_tags in
      let start : Emitting fl = record {
        pool = new_metric_pool b.start_times;
        generated = [];
        skipped = 0;
      } in
      let (s, errs) =
        emit_metrics fl ad re b.registry r now def.metrics (static_tags def.static_tags) start in
      let d =
        emit_bandwidth_utilization fl ad re r def now
          (record { prev = b.prev_counters; pool = s.pool }) in
      (
        record {
          resource = resource_attributes dev (device_metadata fl ad def store) tags;
          pool = d.pool;
          generated = s.generated;
          skipped = s.skipped;
          data_points = points_of d.pool.metrics;
          errs = tag_errors tag_errs ++ errs;
        },
        record b { start_times = d.pool.start_times; prev_counters = d.prev },
      )
