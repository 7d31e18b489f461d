-- ===== src/Report/Builder.antt =====
-- internal/report/builder.go: the datapoints of one symbol. A function that fills the pool and the counts
-- of the report passes them on.
pub mod Keeps
pub mod Build
use networkdevicereceiver.Base.{
  ℕ, suc, ◌+◌, Bool, true, false, not, ◌&&◌, Option, none, some, List, [], ◌∷◌, ◌++◌, if◌then◌else◌,
  length, is_empty, Str, lit, str_eq, is_blank, ℤ, pos, Floats,
}
use networkdevicereceiver.Base.Dict
use networkdevicereceiver.Base.Dict.{Dict}
use networkdevicereceiver.Snmp.Value.{ResultValue, ValueStore, scalar, string_of}
use networkdevicereceiver.Profile.Definition.{
  SymbolConfig, MetricsConfig, is_column, ProfileDefinition,
}
use networkdevicereceiver.Profile.Validate.{is_flag_stream}
use networkdevicereceiver.Profile.Compile.{Compiled, StrSet}
use networkdevicereceiver.Naming.Registry
use networkdevicereceiver.Naming.Registry.{
  Instrument, Entry, StateSet, TypeDispatch, Resolution, resolve, resolve_dispatched,
}
use networkdevicereceiver.Report.Text.{Regexes, Addresses, float_value}
use networkdevicereceiver.Report.Transform.{flag_value}
use networkdevicereceiver.Report.Tags.{
  TagResolver, TagError, row_tags, device_tags, merge_tags, static_tags,
}
use networkdevicereceiver.Report.Row.{
  rows_for, sibling_value, sorted_indexes, component_prefix, build_attributes, sensor_exponent,
  instrument_for, effective_metric_type,
}
use networkdevicereceiver.Report.Resource.{DeviceInfo, resource_attributes, device_metadata}
use networkdevicereceiver.Report.Pool.{Pool, Metric, PoolError, Offer, add, new_metric_pool}
use networkdevicereceiver.Report.Derived.{Sample, Derived, emit_bandwidth_utilization}

pub data EmitError : Type 0 where
  no_sensor_type : Str → Str → EmitError
  no_case no_target bad_value : Str → EmitError
  not_pooled : PoolError → EmitError
  bad_tags : List TagError → EmitError

-- What the functions below share: the pool, and the counts of the report.
pub record Emitting (fl : Floats) : Type 0 where
  pub pool : Pool fl
  pub generated : StrSet
  pub skipped : ℕ

abbrev pub Emitted : Floats → Type 0
Emitted fl = Emitting fl × List EmitError

abbrev pub skip : {fl : Floats} → Emitting fl → Emitting fl
skip s = record s { skipped = s.skipped + 1 }

abbrev pub text_or_empty : Option Str → Str
text_or_empty none = []
text_or_empty (some s) = s

module _ (fl : Floats) where
  abbrev pub pooled : Emitting fl → Pool fl × Option PoolError → Emitted fl
  pooled s (p, none) = (record s { pool = p }, [])
  pooled s (p, some e) = (record s { pool = p }, not_pooled e ∷ [])

  -- A point of one state: 1 for the active one and 0 for the others.
  unfoldable pub state_offer : Str → Entry fl → StateSet → Str → Str → Dict Str → ℕ → Offer fl
  state_offer name e set state active attrs ts = record {
    name = name;
    unit = e.unit;
    instrument = e.instrument;
    attrs = Dict.insert set.attribute state attrs;
    value = fl.of_int (if str_eq state active then pos 1 else pos 0);
    ts = ts;
    priority = e.priority;
  }

  abbrev pub and_then : Emitted fl → (Emitting fl → Emitted fl) → Emitted fl
  and_then (s, e ∷ es) rest = (s, e ∷ es)
  and_then (s, []) rest = rest s

  unfoldable pub emit_states :
      Str → Entry fl → StateSet → Str → Dict Str → ℕ → List Str → Emitting fl → Emitted fl
  emit_states name e set active attrs ts [] s = (s, [])
  emit_states name e set active attrs ts (state ∷ states) s =
      and_then (pooled s (add (state_offer name e set state active attrs ts) s.pool))
        (emit_states name e set active attrs ts states)

  unfoldable pub emit_state_set :
      Str → Entry fl → StateSet → ResultValue fl → Dict Str → ℕ → Emitting fl → Emitted fl
  unfolding emit_states
  emit_state_set name e set v attrs ts s =
      emit_states name e set (text_or_empty (Dict.lookup (string_of fl v.value) set.values)) attrs
        ts set.states s

  abbrev flag_number : Option Bool → Option fl.F
  flag_number none = none
  flag_number (some false) = some (fl.of_int (pos 0))
  flag_number (some true) = some (fl.of_int (pos 1))

  abbrev value_or : Option fl.F → Option fl.F → Option fl.F
  value_or none rest = rest
  value_or (some f) rest = some f

  -- The value map, with its default, before the number itself.
  unfoldable pub numeric_value :
      MetricsConfig fl → SymbolConfig fl → ResultValue fl → Entry fl → Option fl.F
  numeric_value m sym v e =
      if is_flag_stream m.metric_type
      then flag_number (flag_value fl v m.options.placement)
      else value_or (Dict.lookup (string_of fl v.value) e.value_map)
          (value_or (Dict.lookup (lit "default") e.value_map) (float_value fl sym v e.scale))

  pub data Dispatched : Type 0 where
    dispatched : Resolution fl → Dispatched
    not_dispatched : Bool → EmitError → Dispatched

  abbrev times_scale : fl.F → Option fl.F → Option fl.F
  times_scale x none = none
  times_scale x (some f) = some (fl.times f x)

  abbrev with_exponent : fl.F → Str → Option (Resolution fl) → Dispatched
  with_exponent x target none = not_dispatched false (no_target target)
  with_exponent x target (some res) =
      dispatched (record res { entry = record res.entry { scale = times_scale x res.entry.scale } })

  module _ (reg : Registry.Registry fl) (store : ValueStore fl) (m : MetricsConfig fl) where
    abbrev dispatch_case : TypeDispatch → Str → Str → Str → Option Str → Dispatched
    dispatch_case td symbol index sensor none = not_dispatched true (no_case sensor)
    dispatch_case td symbol index sensor (some target) =
        with_exponent (sensor_exponent fl store td m index) target
          (resolve_dispatched reg symbol target)

    abbrev dispatch_type : TypeDispatch → Str → Str → Option Str → Dispatched
    dispatch_type td symbol index none = not_dispatched true (no_sensor_type td.type_symbol index)
    dispatch_type td symbol index (some sensor) =
        dispatch_case td symbol index sensor (Dict.lookup sensor td.cases)

    -- dispatchSensor; the Boolean tells whether the symbol counts as skipped.
    unfoldable pub dispatch_sensor : TypeDispatch → Str → Str → Dispatched
    dispatch_sensor td symbol index =
        dispatch_type td symbol index (sibling_value fl store td.type_symbol m index)

  unfoldable pub note_names : List Str → StrSet → StrSet
  note_names [] set = set
  note_names (n ∷ ns) set = note_names ns (Dict.insert n tt set)

  -- A state set is a point for each of its states, and anything else is one point.
  unfoldable pub emit_point :
      Resolution fl
      → Instrument
      → ResultValue fl
      → fl.F
      → Dict Str
      → ℕ
      → Str
      → Option StateSet
      → Emitting fl
      → Emitted fl
  unfolding emit_state_set
  emit_point res instrument v number attrs ts name (some set) s =
      emit_state_set name res.entry set v attrs ts s
  emit_point res instrument v number attrs ts name none s = pooled s (
      add
        (record {
          name = name;
          unit = res.entry.unit;
          instrument = instrument;
          attrs = attrs;
          value = number;
          ts = ts;
          priority = res.entry.priority;
        })
        s.pool)

  -- One name of a resolution.
  unfoldable pub emit_name :
      Resolution fl
      → Instrument
      → ResultValue fl
      → fl.F
      → Dict Str
      → ℕ
      → Str
      → Emitting fl
      → Emitted fl
  unfolding emit_point
  emit_name res instrument v number attrs ts name s =
      emit_point res instrument v number attrs ts name res.entry.state_set s

  unfoldable pub emit_names :
      Resolution fl
      → Instrument
      → ResultValue fl
      → fl.F
      → (Str → Dict Str)
      → ℕ
      → List Str
      → Emitting fl
      → Emitted fl
  unfolding emit_name
  emit_names res instrument v number attrs ts [] s = (s, [])
  emit_names res instrument v number attrs ts (name ∷ names) s =
      and_then (emit_name res instrument v number (attrs name) ts name s)
        (emit_names res instrument v number attrs ts names)
