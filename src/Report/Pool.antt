-- ===== src/Report/Pool.antt =====
-- internal/report/pool.go, with `streamKeyFromMap` and `startTime` of internal/report/builder.go. A
-- pdata object is a reference into its slice: a metric is its position in `metrics`, and a datapoint
-- its position in `heap`, which holds the datapoints of all metrics as they are created. A map is
-- read in the order of its list.
pub mod Offers
pub mod Starts
pub mod Placed
use networkdevicereceiver.Base.{
  ℕ, zero, suc, ◌+◌, Bool, true, false, not, Option, none, some, List, [], ◌∷◌, ◌++◌, map, ltb,
  if◌then◌else◌, length, get_elem?, Str, lit, join, ℤ, int_less, pos, negsuc, Floats,
}
use networkdevicereceiver.Base.Dict
use networkdevicereceiver.Base.Dict.{Dict}
use networkdevicereceiver.Base.Sort.{sort, str_less}
use networkdevicereceiver.Naming.Registry.{Instrument, gauge, sum, up_down_counter, same_instrument}

pub record Point (fl : Floats) : Type 0 where
  pub attributes : Dict Str
  pub value : fl.F
  pub time : ℕ
  pub start : Option ℕ

-- The data of a metric: none yet, a gauge, or a cumulative sum that is monotonic or not.
pub data MetricData : Type 0 where
  no_data gauge_data : MetricData
  sum_data : Bool → MetricData

pub record Metric : Type 0 where
  pub name : Str
  pub unit : Str
  pub content : MetricData
  pub points : List ℕ

pub record Stream : Type 0 where
  pub point : ℕ
  pub priority : ℤ

pub record Pool (fl : Floats) : Type 0 where
  pub metrics : List Metric
  pub by_name : Dict ℕ
  pub streams : Dict Stream
  pub heap : List (Point fl)
  -- the builder's start times, which outlive the poll
  pub start_times : Dict ℕ

pub data PoolError : Type 0 where
  other_instrument : Str → Instrument → Instrument → PoolError
  unknown_instrument : Str → Instrument → PoolError

unfoldable pub new_metric_pool : {fl : Floats} → Dict ℕ → Pool fl
new_metric_pool starts = record {
  metrics = [];
  by_name = [];
  streams = [];
  heap = [];
  start_times = starts;
}

unfoldable pub change_at {ℓ} : {A : Type ℓ} → ℕ → (A → A) → List A → List A
change_at n f [] = []
change_at zero f (x ∷ xs) = f x ∷ xs
change_at (suc n) f (x ∷ xs) = x ∷ change_at n f xs

unfoldable pub instrument_of : MetricData → Instrument
instrument_of (sum_data false) = up_down_counter
instrument_of (sum_data true) = sum
instrument_of no_data = gauge
instrument_of gauge_data = gauge

abbrev pub data_of : Instrument → Option MetricData
data_of gauge = some gauge_data
data_of sum = some (sum_data true)
data_of up_down_counter = some (sum_data false)
data_of _ = none

unfoldable pub stream_key : Str → Dict Str → Str
stream_key name attrs =
    name ++ b'|' ∷ join b',' (sort str_less (map (λ e. e.0 ++ b'=' ∷ e.1) attrs))

-- A metric to append to, or the error.
pub data Found : Type 0 where
  found : ℕ → Found
  refused : PoolError → Found

abbrev pub content_at : List Metric → ℕ → MetricData
content_at ms i = elim (get_elem? ms i) [ none ↦ no_data | some m ↦ m.content ]

-- startTime, and the start times after it
unfoldable pub start_time : Str → ℕ → Dict ℕ → ℕ × Dict ℕ
start_time key now starts = elim (Dict.lookup key starts) [
  | some start ↦ (start, starts)
  | none ↦ (now, Dict.insert key now starts)
]

-- What is asked to be added.
pub record Offer (fl : Floats) : Type 0 where
  pub name : Str
  pub unit : Str
  pub instrument : Instrument
  pub attrs : Dict Str
  pub value : fl.F
  pub ts : ℕ
  pub priority : ℤ

abbrev pub started : Instrument → Str → ℕ → Dict ℕ → Option ℕ × Dict ℕ
started gauge key now starts = (none, starts)
started _ key now starts = let (start, starts') = start_time key now starts in (some start, starts')

unfoldable pub empty_metric : Str → Str → MetricData → Metric
empty_metric name unit content = record { name = name; unit = unit; content = content; points = [] }

module _ {fl : Floats} where
  -- From the switch on: an instrument that is not known leaves an empty metric behind.
  pub new_metric : Str → Str → Instrument → Option MetricData → Pool fl → Pool fl × Found
  new_metric name unit i none p = (
    record p { metrics = p.metrics ++ empty_metric name unit no_data ∷ [] },
    refused (unknown_instrument name i),
  )
  new_metric name unit i (some content) p =
      let at = length p.metrics in
      (
        record p {
          metrics = p.metrics ++ empty_metric name unit content ∷ [];
          by_name = Dict.insert name at p.by_name;
        },
        found at,
      )

  pub metric_named : Str → Str → Instrument → Option ℕ → Pool fl → Pool fl × Found
  unfolding new_metric
  metric_named name unit i none p = new_metric name unit i (data_of i) p
  metric_named name unit i (some at) p =
      let got = instrument_of (content_at p.metrics at) in
      if same_instrument got i then (p, found at) else (p, refused (other_instrument name i got))

  unfoldable pub metric : Str → Str → Instrument → Pool fl → Pool fl × Found
  unfolding metric_named
  metric name unit i p = metric_named name unit i (Dict.lookup name p.by_name) p

  abbrev pub key_of : Offer fl → Str
  key_of o = stream_key o.name o.attrs

  -- A datapoint at the end of the metric's slice.
  unfoldable pub append_point : Offer fl → ℕ → Pool fl → Pool fl
  append_point o at p =
      let (start, starts) = started o.instrument (key_of o) o.ts p.start_times in
      let point = length p.heap in
      record p {
        metrics = change_at at (λ m. record m { points = m.points ++ point ∷ [] }) p.metrics;
        heap =
            p.heap
            ++ record { attributes = o.attrs; value = o.value; time = o.ts; start = start } ∷ [];
        streams =
            Dict.insert (key_of o) (record { point = point; priority = o.priority }) p.streams;
        start_times = starts;
      }

  unfoldable pub replace_value : Offer fl → Stream → Pool fl → Pool fl
  replace_value o existing p =
      if int_less existing.priority o.priority
      then record p {
        heap = change_at existing.point (λ q. record q { value = o.value }) p.heap;
        streams = Dict.insert (key_of o) (record existing { priority = o.priority }) p.streams;
      }
      else p

  pub add_stream : Offer fl → ℕ → Option Stream → Pool fl → Pool fl
  unfolding append_point replace_value
  add_stream o at none p = append_point o at p
  add_stream o at (some existing) p = replace_value o existing p

  unfoldable pub add_found : Offer fl → Pool fl × Found → Pool fl × Option PoolError
  unfolding add_stream
  add_found o (p, refused e) = (p, some e)
  add_found o (p, found at) = (add_stream o at (Dict.lookup (key_of o) p.streams) p, none)

  unfoldable pub add : Offer fl → Pool fl → Pool fl × Option PoolError
  unfolding metric add_found
  add o p = add_found o (metric o.name o.unit o.instrument p)
