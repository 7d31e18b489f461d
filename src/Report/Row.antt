-- ===== src/Report/Row.antt =====
-- internal/report/builder.go: the rows of a table, what is read beside a value, and what a datapoint
-- is told by.
use networkdevicereceiver.Base.{
  Letters, ℕ, ◌+◌, ◌-◌, ◌^◌, Bool, true, false, not, ◌&&◌, ◌||◌, ◌==◌, Option, none, some, List, [],
  ◌∷◌, ◌++◌, map, leb, if◌then◌else◌, is_empty, Str, lit, str_eq, is_blank, has_prefix, trim_suffix,
  ℤ, pos, plus_int, opposite, times_int, Floats,
}
use networkdevicereceiver.Base.Dict
use networkdevicereceiver.Base.Dict.{Dict}
use networkdevicereceiver.Base.Sort.{sort}
use networkdevicereceiver.Snmp.Oid.{canonical_oid, oid_less, parse_uint}
use networkdevicereceiver.Snmp.Value.{
  ResultValue, ValueStore, column, column_value, string_of, is_counter,
}
use networkdevicereceiver.Profile.Definition.{
  MetricType, monotonic_count, monotonic_count_and_rate, rate, gauge, flag_stream, unset,
  SymbolConfig, MetricIndexTransform, MetricTagConfig, MetricsConfig,
}
use networkdevicereceiver.Naming.Fallback.{snake, trim_underscores}
use networkdevicereceiver.Naming.Registry.{Instrument, Entry, TypeDispatch}
use networkdevicereceiver.Report.Tags.{put_all}
use networkdevicereceiver.Report.Transform.{transform_index}

-- metricLabel
unfoldable pub metric_label : {fl : Floats} → MetricsConfig fl → Str
metric_label m =
    if not (is_blank m.symbol.name)
    then m.symbol.name
    else if not (is_blank m.table.name)
    then m.table.name
    else m.mib

abbrev pub effective_metric_type : {fl : Floats} → MetricsConfig fl → SymbolConfig fl → MetricType
effective_metric_type m sym = elim sym.metric_type [ unset ↦ m.metric_type | _ ↦ sym.metric_type ]

-- From the type on; `counted` tells whether the device answered a counter.
unfoldable pub instrument_by : MetricType → Bool → Instrument
instrument_by monotonic_count counted = Instrument.sum
instrument_by monotonic_count_and_rate counted = Instrument.sum
instrument_by rate counted = Instrument.sum
instrument_by gauge counted = Instrument.gauge
instrument_by flag_stream counted = Instrument.gauge
instrument_by _ counted = if counted then Instrument.sum else Instrument.gauge

-- sortedIndexes
unfoldable pub sorted_indexes {ℓ} : {V : Type ℓ} → Dict V → List Str
sorted_indexes rows = sort oid_less (Dict.keys rows)

abbrev canonical_components : Dict Str
canonical_components = (lit "1.3.6.1.2.1.2.2", lit "if") ∷ (lit "1.3.6.1.2.1.31.1.1", lit "if") ∷ []

abbrev or_whole : Str → Str → Str
or_whole trimmed name = if is_blank trimmed then name else trimmed

unfoldable pub component_prefix : Letters → Str → Str → Str
component_prefix u table_name table_oid =
    let oid = canonical_oid table_oid in
    elim (Dict.lookup oid canonical_components) [
      | some canonical ↦ canonical
      | none ↦
          if is_blank table_name
          then trim_underscores (map (λ c. if c == b'.' then b'_' else c) oid)
          else snake u (or_whole (trim_suffix table_name (lit "Table")) table_name)
    ]

unfoldable pub component_id : Letters → Str → Str → Str → Str
component_id u component index symbol_name =
    if not (is_blank component) && not (is_blank index)
    then component ++ b'_' ∷ index
    else if not (is_blank symbol_name)
    then snake u symbol_name
    else []

abbrev tag_or : Option Str → Str → Str
tag_or none rest = rest
tag_or (some v) rest = if is_blank v then rest else v

unfoldable pub preferred_from : List Str → Dict Str → Str
preferred_from [] tags = []
preferred_from (key ∷ keys) tags = tag_or (Dict.lookup key tags) (preferred_from keys tags)

unfoldable pub preferred_name : Dict Str → Str
unfolding preferred_from
preferred_name tags =
    preferred_from (lit "interface" ∷ lit "name" ∷ lit "sensor" ∷ lit "port" ∷ []) tags

-- out[key] = value, unless the value is empty
unfoldable pub put_unless_blank : Str → Str → Dict Str → Dict Str
put_unless_blank key value out = if is_blank value then out else Dict.insert key value out

abbrev pub is_hardware : Str → Bool
is_hardware metric_name = has_prefix metric_name (lit "hw.")

module _ (fl : Floats) where
  unfoldable pub instrument_for : MetricType → ResultValue fl → Instrument
  unfolding instrument_by
  instrument_for t v = instrument_by t (is_counter fl v)

  unfoldable pub build_attributes : Entry fl → Dict Str → Str → Str → Str → Str → Dict Str
  unfolding put_unless_blank
  build_attributes e tags metric_name component index symbol_name =
      let out = put_all (put_all [] e.attributes) tags in
      let name = preferred_name tags in
      if not (is_hardware metric_name) && not e.component_identity
      then out
      else let told = put_unless_blank (lit "hw.name") name (
          put_unless_blank (lit "hw.id") (component_id fl.letters component index symbol_name)
            out) in
        if is_hardware metric_name
        then told
        else put_unless_blank (lit "network.interface.name") name told

  abbrev cell_text : Option (ResultValue fl) → Option Str
  cell_text none = none
  cell_text (some v) = some (string_of fl v.value)

  abbrev joined_text : ValueStore fl → Str → Option Str → Option Str
  joined_text store oid none = none
  joined_text store oid (some target) = cell_text (column_value fl store oid target)

  -- The closure `lookup` of `siblingValue`.
  unfoldable pub sibling_at :
      ValueStore fl → Str → Str → SymbolConfig fl → List MetricIndexTransform → Option Str
  sibling_at store name index sym transforms =
      if not (str_eq sym.name name) || is_blank sym.oid
      then none
      else joined_text store sym.oid (transform_index index transforms)

  abbrev or_next : Option Str → Option Str → Option Str
  or_next none rest = rest
  or_next (some v) rest = some v

  unfoldable pub sibling_symbol : ValueStore fl → Str → Str → List (SymbolConfig fl) → Option Str
  unfolding sibling_at
  sibling_symbol store name index [] = none
  sibling_symbol store name index (sym ∷ syms) =
      or_next (sibling_at store name index sym []) (sibling_symbol store name index syms)

  unfoldable pub sibling_tag : ValueStore fl → Str → Str → List (MetricTagConfig fl) → Option Str
  unfolding sibling_at
  sibling_tag store name index [] = none
  sibling_tag store name index (tag ∷ tags) =
      or_next (sibling_at store name index tag.symbol tag.index_transform)
        (sibling_tag store name index tags)

  unfoldable pub sibling_value : ValueStore fl → Str → MetricsConfig fl → Str → Option Str
  unfolding sibling_symbol sibling_tag
  sibling_value store name m index =
      or_next (sibling_symbol store name index m.symbols)
        (sibling_tag store name index m.metric_tags)

  -- A column with rows.
  abbrev with_rows : Option (Dict (ResultValue fl)) → Option (Dict (ResultValue fl))
  with_rows none = none
  with_rows (some rows) = if is_empty rows then none else some rows

  abbrev rows_or :
      Option (Dict (ResultValue fl))
      → Option (Dict (ResultValue fl))
      → Option (Dict (ResultValue fl))
  rows_or none rest = rest
  rows_or (some rows) rest = some rows

  unfoldable pub sibling_rows :
      ValueStore fl → List (SymbolConfig fl) → Option (Dict (ResultValue fl))
  sibling_rows store [] = none
  sibling_rows store (s ∷ ss) =
      let rest = sibling_rows store ss in
      if is_blank s.oid then rest else rows_or (with_rows (column fl store s.oid)) rest

  unfoldable pub tag_rows :
      ValueStore fl → List (MetricTagConfig fl) → Option (Dict (ResultValue fl))
  tag_rows store [] = none
  tag_rows store (t ∷ ts) =
      let rest = tag_rows store ts in
      if is_blank t.symbol.oid || not (is_blank t.table)
      then rest
      else rows_or (with_rows (column fl store t.symbol.oid)) rest

  -- rowsFor: `none` is its error.
  unfoldable pub rows_for :
      ValueStore fl → MetricsConfig fl → SymbolConfig fl → Option (Dict (ResultValue fl))
  unfolding sibling_rows tag_rows
  rows_for store m sym =
      if not (is_blank sym.oid)
      then column fl store sym.oid
      else if not sym.constant_value_one
      then none
      else rows_or (sibling_rows store m.symbols) (tag_rows store m.metric_tags)

-- strconv.Atoi on 64 bits
abbrev max_int : ℕ
max_int = 2 ^ 63 - 1

abbrev signed : Bool → Option ℕ → Option ℤ
signed negative none = none
signed false (some n) = if leb n max_int then some (pos n) else none
signed true (some n) = if leb n (max_int + 1) then some (opposite (pos n)) else none

unfoldable pub atoi : Str → Option ℤ
atoi [] = none
atoi (c ∷ s) =
    if c == b'-'
    then signed true (parse_uint s)
    else if c == b'+'
    then signed false (parse_uint s)
    else signed false (parse_uint (c ∷ s))

-- 3 * (scale - 9) for a scale of 1 to 17
unfoldable pub scale_exponent : Option ℤ → ℤ
scale_exponent (some (pos n)) =
    if leb 1 n && leb n 17 then times_int (pos 3) (plus_int (pos n) (opposite (pos 9))) else pos 0
scale_exponent _ = pos 0

unfoldable pub precision_exponent : Option ℤ → ℤ
precision_exponent none = pos 0
precision_exponent (some z) = opposite z

abbrev number_in : Option Str → Option ℤ
number_in none = none
number_in (some raw) = atoi raw

module _ (fl : Floats) where
  abbrev number_of : ValueStore fl → Str → MetricsConfig fl → Str → Option ℤ
  number_of store symbol m index =
      if is_blank symbol then none else number_in (sibling_value fl store symbol m index)

  -- the sum in `sensorExponent`, and its power of ten
  unfoldable pub exponent_of : ValueStore fl → TypeDispatch → MetricsConfig fl → Str → ℤ
  unfolding scale_exponent precision_exponent
  exponent_of store td m index =
      plus_int (scale_exponent (number_of store td.scale_symbol m index))
        (precision_exponent (number_of store td.precision_symbol m index))

  unfoldable pub sensor_exponent : ValueStore fl → TypeDispatch → MetricsConfig fl → Str → fl.F
  unfolding exponent_of
  sensor_exponent store td m index = fl.power_of_ten (exponent_of store td m index)
