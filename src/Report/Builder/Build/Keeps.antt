-- ===== src/Report/Builder/Build/Keeps.antt =====
-- internal/report/builder.go and derived.go: `Build` changes the pool by `add` alone.
use networkdevicereceiver.Base.{
  ℕ, Bool-cases, true, false, Option, none, some, List, [], ◌∷◌, inl, inr, is_empty, Str, lit,
  Floats,
}
use networkdevicereceiver.Base.Dict
use networkdevicereceiver.Base.Dict.{Dict}
use networkdevicereceiver.Snmp.Value.{ResultValue, ValueStore, scalar, float_of}
use networkdevicereceiver.Profile.Definition.{
  SymbolConfig, MetricsConfig, is_column, ProfileDefinition,
}
use networkdevicereceiver.Profile.Compile.{Compiled}
use networkdevicereceiver.Naming.Registry
use networkdevicereceiver.Naming.Registry.{Resolution, resolve}
use networkdevicereceiver.Report.Text.{Regexes, Addresses}
use networkdevicereceiver.Report.Tags.{TagResolver, static_tags}
use networkdevicereceiver.Report.Row.{rows_for, sorted_indexes}
use networkdevicereceiver.Report.Resource.{DeviceInfo}
use networkdevicereceiver.Report.Pool.{Pool, new_metric_pool}
use networkdevicereceiver.Report.Derived.{
  Derived, is_positive, emit_fraction, emit_octets, emit_row, octets_of, received_oids, sent_oids,
  emit_directions, emit_bandwidth_utilization, interface_speeds,
}
use networkdevicereceiver.Report.Derived
use networkdevicereceiver.Report.Builder.{
  Emitting, Dispatched, dispatched, not_dispatched, numeric_value,
}
use networkdevicereceiver.Report.Builder.Keeps.{IsKept, emit_names-keeps}
use networkdevicereceiver.Report.Builder.Build.{
  emit_number, emit_resolved, resolution_of, lookup_name, emit_symbol, emit_scalar,
  emit_scalar_metric, emit_cell, emit_rows, emit_column, emit_columns, emit_table_metric,
  emit_metric, emit_metrics, Builder, build,
}

module _ (fl : Floats) (P : Pool fl → Type 0) (kept : IsKept fl P) (ad : Addresses) (re : Regexes)
    (r : TagResolver fl re) where
  module _ (reg : Registry.Registry fl) (ts : ℕ) where
    emit_number-keeps :
        (m : MetricsConfig fl) (sym : SymbolConfig fl) (v : ResultValue fl) (attrs : Dict Str)
        (component index : Str) (res : Resolution fl) (n : Option fl.F) (s : Emitting fl)
        → P s.pool
        → P (emit_number fl ad re reg r ts m sym v attrs component index res n s).0.pool
    emit_number-keeps m sym v attrs component index res none s h = h
    emit_number-keeps m sym v attrs component index res (some n) s h =
        emit_names-keeps fl P kept res _ v n _ ts res.names _ h

    emit_resolved-keeps :
        (m : MetricsConfig fl) (sym : SymbolConfig fl) (v : ResultValue fl) (attrs : Dict Str)
        (component index : Str) (d : Dispatched fl) (s : Emitting fl)
        → P s.pool
        → P (emit_resolved fl ad re reg r ts m sym v attrs component index d s).0.pool
    emit_resolved-keeps m sym v attrs component index (not_dispatched false e) s h = h
    emit_resolved-keeps m sym v attrs component index (not_dispatched true e) s h = h
    emit_resolved-keeps m sym v attrs component index (dispatched res) s h =
        emit_number-keeps m sym v attrs component index res (numeric_value fl m sym v res.entry) s h

    emit_symbol-keeps :
        (m : MetricsConfig fl) (sym : SymbolConfig fl) (v : ResultValue fl) (attrs : Dict Str)
        (component index : Str) (s : Emitting fl)
        → P s.pool
        → P (emit_symbol fl ad re reg r ts m sym v attrs component index s).0.pool
    unfolding emit_symbol
    emit_symbol-keeps m sym v attrs component index s h =
        emit_resolved-keeps m sym v attrs component index
          (resolution_of fl ad re reg r ts m sym index
            (resolve reg m.mib (lookup_name fl ad re reg r ts m sym)))
          s h

    emit_scalar-keeps :
        (m : MetricsConfig fl) (static : Dict Str) (v : Option (ResultValue fl)) (s : Emitting fl)
        → P s.pool
        → P (emit_scalar fl ad re reg r ts m static v s).0.pool
    emit_scalar-keeps m static none s h = h
    emit_scalar-keeps m static (some v) s h = emit_symbol-keeps m m.symbol v _ [] [] s h

    emit_cell-keeps :
        (m : MetricsConfig fl) (sym : SymbolConfig fl) (static : Dict Str) (component index : Str)
        (tags : Dict Str) (v : Option (ResultValue fl)) (s : Emitting fl)
        → P s.pool
        → P (emit_cell fl ad re reg r ts m sym static component index tags v s).0.pool
    emit_cell-keeps m sym static component index tags none s h = h
    emit_cell-keeps m sym static component index tags (some v) s h =
        emit_symbol-keeps m sym v _ component index s h

    emit_rows-keeps :
        (m : MetricsConfig fl) (sym : SymbolConfig fl) (static : Dict Str) (component : Str)
        (rows : Dict (ResultValue fl)) (indexes : List Str) (cache : Dict (Dict Str))
        (s : Emitting fl)
        → P s.pool
        → P (emit_rows fl ad re reg r ts m sym static component rows indexes cache s).0.0.pool
    unfolding emit_rows
    emit_rows-keeps m sym static component rows [] cache s h = h
    emit_rows-keeps m sym static component rows (index ∷ indexes) cache s h =
        emit_rows-keeps m sym static component rows indexes _ _
          (emit_cell-keeps m sym static component index _ (Dict.lookup index rows) s h)

    emit_column-keeps :
        (m : MetricsConfig fl) (sym : SymbolConfig fl) (static : Dict Str) (component : Str)
        (rows : Option (Dict (ResultValue fl))) (cache : Dict (Dict Str)) (s : Emitting fl)
        → P s.pool
        → P (emit_column fl ad re reg r ts m sym static component rows cache s).0.0.pool
    emit_column-keeps m sym static component none cache s h = h
    emit_column-keeps m sym static component (some rows) cache s h =
        emit_rows-keeps m sym static component rows (sorted_indexes rows) cache s h

    emit_columns-keeps :
        (m : MetricsConfig fl) (static : Dict Str) (component : Str) (syms : List (SymbolConfig fl))
        (cache : Dict (Dict Str)) (s : Emitting fl)
        → P s.pool
        → P (emit_columns fl ad re reg r ts m static component syms cache s).0.pool
    unfolding emit_columns
    emit_columns-keeps m static component [] cache s h = h
    emit_columns-keeps m static component (sym ∷ syms) cache s h =
        emit_columns-keeps m static component syms _ _
          (emit_column-keeps m sym static component (rows_for fl r.store m sym) cache s h)

    emit_metric-keeps :
        (m : MetricsConfig fl) (static : Dict Str) (s : Emitting fl)
        → P s.pool
        → P (emit_metric fl ad re reg r ts m static s).0.pool
    unfolding emit_metric emit_table_metric emit_scalar_metric
    emit_metric-keeps m static s h = elim (Bool-cases (is_column m)) [
      | inl e ↦ rw e (emit_columns-keeps m _ _ m.symbols [] s h)
      | inr e ↦ rw e (emit_scalar-keeps m _ (scalar fl r.store m.symbol.oid) s h)
    ]

    emit_metrics-keeps :
        (ms : List (MetricsConfig fl)) (static : Dict Str) (s : Emitting fl)
        → P s.pool
        → P (emit_metrics fl ad re reg r ts ms static s).0.pool
    unfolding emit_metrics
    emit_metrics-keeps [] static s h = h
    emit_metrics-keeps (m ∷ ms) static s h =
        emit_metrics-keeps ms static _ (emit_metric-keeps m static s h)

  module _ (def : ProfileDefinition fl) (now : ℕ) where
    emit_fraction-keeps :
        (direction index : Str) (f : Option fl.F) (d : Derived fl)
        → P d.pool
        → P (emit_fraction fl ad re r def now direction index f d).pool
    emit_fraction-keeps direction index none d h = h
    emit_fraction-keeps direction index (some f) d h = kept.keeps _ d.pool h

    emit_octets-keeps :
        (direction index : Str) (capacity : fl.F) (octets : Option fl.F) (d : Derived fl)
        → P d.pool
        → P (emit_octets fl ad re r def now direction index capacity octets d).pool
    emit_octets-keeps direction index capacity none d h = h
    emit_octets-keeps direction index capacity (some octets) d h =
        emit_fraction-keeps direction index _ _ h

    emit_row-keeps :
        (direction index : Str) (capacity octets : Option fl.F) (d : Derived fl)
        → P d.pool
        → P (emit_row fl ad re r def now direction index capacity octets d).pool
    emit_row-keeps direction index none octets d h = h
    emit_row-keeps direction index (some capacity) octets d h =
        elim (Bool-cases (is_positive fl capacity)) [
          | inl e ↦ rw e (emit_octets-keeps direction index capacity octets d h)
          | inr e ↦ rw e h
        ]

    octet_rows-keeps :
        (direction : Str) (speeds : Dict fl.F) (rows : Dict (ResultValue fl)) (d : Derived fl)
        → P d.pool
        → P (Derived.emit_rows fl ad re r def now direction speeds rows d).pool
    unfolding Derived.emit_rows
    octet_rows-keeps direction speeds [] d h = h
    octet_rows-keeps direction speeds ((index, v) ∷ rows) d h =
        octet_rows-keeps direction speeds rows _
          (emit_row-keeps direction index (Dict.lookup index speeds) (float_of fl v.value) d h)

    emit_bandwidth_utilization-keeps :
        (d : Derived fl) → P d.pool → P (emit_bandwidth_utilization fl ad re r def now d).pool
    unfolding emit_bandwidth_utilization emit_directions
    emit_bandwidth_utilization-keeps d h =
        elim (Bool-cases (is_empty (interface_speeds fl r.store))) [
          | inl e ↦ rw e h
          | inr e ↦ rw e (
              let speeds = interface_speeds fl r.store in
              let received = octets_of fl ad re r def now (received_oids fl ad re r def now) in
              octet_rows-keeps (lit "transmit") speeds
                (octets_of fl ad re r def now (sent_oids fl ad re r def now)) _
                (octet_rows-keeps (lit "receive") speeds received d h))
        ]

module _ (fl : Floats) (P : Pool fl → Type 0) (kept : IsKept fl P) (ad : Addresses)
    (re : Regexes) where
  -- What no offer ends, and what holds of the empty pool, holds of the pool of a poll.
  pub build-keeps :
      (dev : DeviceInfo) (compiled : Compiled fl re.R) (store : ValueStore fl) (now : ℕ)
      (b : Builder fl)
      → P (new_metric_pool b.start_times)
      → P (build fl ad re dev compiled store now b).0.pool
  unfolding build
  build-keeps dev compiled store now b h =
      let r : TagResolver fl re = record { compiled = compiled; store = store } in
      emit_bandwidth_utilization-keeps fl P kept ad re r compiled.definition now _ (
        emit_metrics-keeps fl P kept ad re r b.registry now compiled.definition.metrics
          (static_tags compiled.definition.static_tags) _ h)
