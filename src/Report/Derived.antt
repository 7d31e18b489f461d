-- ===== src/Report/Derived.antt =====
-- internal/report/derived.go: bandwidth utilization, from the octet counters of two polls. Times are
-- numbers of nanoseconds.
use networkdevicereceiver.Base.{
  ℕ, ◌-◌, Bool, Option, none, some, List, [], ◌∷◌, ◌++◌, leb, if◌then◌else◌, is_empty, Str, lit,
  str_eq, pos, Floats,
}
use networkdevicereceiver.Base.Dict
use networkdevicereceiver.Base.Dict.{Dict}
use networkdevicereceiver.Snmp.Value.{ResultValue, ValueStore, column, float_of}
use networkdevicereceiver.Profile.Definition.{MetricTagConfig, MetricsConfig, ProfileDefinition}
use networkdevicereceiver.Naming.Registry.{gauge}
use networkdevicereceiver.Report.Text.{Regexes, Addresses}
use networkdevicereceiver.Report.Tags.{TagResolver, row_tags}
use networkdevicereceiver.Report.Row.{preferred_name, put_unless_blank}
use networkdevicereceiver.Report.Pool.{Pool, Offer, add}

pub record Sample (fl : Floats) : Type 0 where
  pub value : fl.F
  pub at : ℕ

module _ {ℓ} {V : Type ℓ} where
  abbrev filled_or : Option (Dict V) → Dict V → Dict V
  filled_or none rest = rest
  filled_or (some rows) rest = if is_empty rows then rest else rows

module _ (fl : Floats) where
  abbrev pub is_positive : fl.F → Bool
  is_positive f = fl.less (fl.of_int (pos 0)) f

  unfoldable pub first_available_column : ValueStore fl → List Str → Dict (ResultValue fl)
  first_available_column store [] = []
  first_available_column store (oid ∷ oids) =
      filled_or (column fl store oid) (first_available_column store oids)

  abbrev speed_of : (fl.F → fl.F) → Option fl.F → Option fl.F
  speed_of unit none = none
  speed_of unit (some f) = if is_positive f then some (unit f) else none

  abbrev put_speed : Str → Option fl.F → Dict fl.F → Dict fl.F
  put_speed index none out = out
  put_speed index (some f) out = Dict.insert index f out

  unfoldable pub put_speeds : (fl.F → fl.F) → Dict (ResultValue fl) → Dict fl.F → Dict fl.F
  put_speeds unit [] out = out
  put_speeds unit ((index, v) ∷ rows) out =
      put_speeds unit rows (put_speed index (speed_of unit (float_of fl v.value)) out)

  abbrev rows_in : Option (Dict (ResultValue fl)) → Dict (ResultValue fl)
  rows_in none = []
  rows_in (some rows) = rows

  -- Bytes per second: bits / 8, overwritten by Mbit * 125000.
  unfoldable pub interface_speeds : ValueStore fl → Dict fl.F
  unfolding put_speeds
  interface_speeds store =
      put_speeds (λ mbits. fl.times mbits (fl.of_int (pos 125000)))
        (rows_in (column fl store (lit "1.3.6.1.2.1.31.1.1.1.15")))
        (put_speeds (λ bits. fl.over bits (fl.of_int (pos 8)))
          (rows_in (column fl store (lit "1.3.6.1.2.1.2.2.1.5"))) [])

  unfoldable pub interface_tag :
      List (MetricTagConfig fl) → List (MetricTagConfig fl) → List (MetricTagConfig fl)
  interface_tag [] rest = rest
  interface_tag (tag ∷ tags) rest =
      let later = interface_tag tags rest in
      if str_eq tag.tag (lit "interface") then tag ∷ [] else later

  unfoldable pub interface_tags_of : List (MetricsConfig fl) → List (MetricTagConfig fl)
  unfolding interface_tag
  interface_tags_of [] = []
  interface_tags_of (m ∷ ms) =
      let rest = interface_tags_of ms in
      if str_eq m.table.oid (lit "1.3.6.1.2.1.2.2") then interface_tag m.metric_tags rest else rest

  unfoldable pub interface_name_tags : ProfileDefinition fl → List (MetricTagConfig fl)
  unfolding interface_tags_of
  interface_name_tags def = interface_tags_of def.metrics

  -- The fraction of the capacity since the last sample, if there is one to tell.
  unfoldable pub fraction_since : fl.F → fl.F → ℕ → Option (Sample fl) → Option fl.F
  fraction_since octets capacity now none = none
  fraction_since octets capacity now (some previous) =
      if leb now previous.at
      then none
      else if fl.less octets previous.value
      then none
      else let fraction =
          fl.over (fl.over (fl.minus octets previous.value) (fl.seconds (now - previous.at)))
            capacity in
        if fl.less fraction (fl.of_int (pos 0)) then none else some fraction

  unfoldable pub utilization :
      Str → fl.F → fl.F → ℕ → Dict (Sample fl) → Dict (Sample fl) × Option fl.F
  unfolding fraction_since
  utilization key octets capacity now prev = (
    Dict.insert key (record { value = octets; at = now }) prev,
    fraction_since octets capacity now (Dict.lookup key prev),
  )

-- The samples and the pool.
pub record Derived (fl : Floats) : Type 0 where
  pub prev : Dict (Sample fl)
  pub pool : Pool fl

module _ (fl : Floats) (ad : Addresses) (re : Regexes) (r : TagResolver fl re)
    (def : ProfileDefinition fl) (now : ℕ) where
  unfoldable pub utilization_offer : Str → Str → fl.F → Offer fl
  utilization_offer direction index fraction = record {
    name = lit "hw.network.bandwidth.utilization";
    unit = lit "1";
    instrument = gauge;
    attrs =
        put_unless_blank (lit "hw.name")
          (preferred_name (row_tags fl ad re r (interface_name_tags fl def) index).0)
          ((lit "hw.type", lit "network")
            ∷ (lit "network.io.direction", direction)
            ∷ (lit "hw.id", lit "if_" ++ index)
            ∷ []);
    value = fraction;
    ts = now;
    priority = pos 0;
  }

  abbrev pub emit_fraction : Str → Str → Option fl.F → Derived fl → Derived fl
  emit_fraction direction index none d = d
  emit_fraction direction index (some fraction) d = record d {
    pool = (add (utilization_offer direction index fraction) d.pool).0;
  }

  abbrev pub emit_octets : Str → Str → fl.F → Option fl.F → Derived fl → Derived fl
  emit_octets direction index capacity none d = d
  emit_octets direction index capacity (some octets) d =
      let (prev, fraction) =
        utilization fl (direction ++ b'|' ∷ index) octets capacity now d.prev in
      emit_fraction direction index fraction (record d { prev = prev })

  abbrev pub emit_row : Str → Str → Option fl.F → Option fl.F → Derived fl → Derived fl
  emit_row direction index none octets d = d
  emit_row direction index (some capacity) octets d =
      if is_positive fl capacity then emit_octets direction index capacity octets d else d

  unfoldable pub emit_rows : Str → Dict fl.F → Dict (ResultValue fl) → Derived fl → Derived fl
  emit_rows direction speeds [] d = d
  emit_rows direction speeds ((index, v) ∷ rows) d =
      emit_rows direction speeds rows
        (emit_row direction index (Dict.lookup index speeds) (float_of fl v.value) d)

  abbrev pub octets_of : List Str → Dict (ResultValue fl)
  octets_of oids = first_available_column fl r.store oids

  abbrev pub received_oids : List Str
  received_oids = lit "1.3.6.1.2.1.31.1.1.1.6" ∷ lit "1.3.6.1.2.1.2.2.1.10" ∷ []

  abbrev pub sent_oids : List Str
  sent_oids = lit "1.3.6.1.2.1.31.1.1.1.10" ∷ lit "1.3.6.1.2.1.2.2.1.16" ∷ []

  unfoldable pub emit_directions : Dict fl.F → Derived fl → Derived fl
  unfolding emit_rows
  emit_directions speeds d =
      emit_rows (lit "transmit") speeds (octets_of sent_oids)
        (emit_rows (lit "receive") speeds (octets_of received_oids) d)

  unfoldable pub emit_bandwidth_utilization : Derived fl → Derived fl
  unfolding emit_directions
  emit_bandwidth_utilization d =
      let speeds = interface_speeds fl r.store in
      if is_empty speeds then d else emit_directions speeds d
