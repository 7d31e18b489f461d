-- ===== src/Report/Pool/Starts.antt =====
-- internal/report/builder.go: the start times, which `add` writes for the datapoints of sums.
use networkdevicereceiver.Base.{
  ℕ, ◌≡◌, refl, subst, Bool-cases, inl, inr, Option, none, some, Option-cases, arith, int_less, Str,
  str_eq_iff, Floats,
}
use networkdevicereceiver.Base.Dict
use networkdevicereceiver.Base.Dict.{Dict, lookup-insert}
use networkdevicereceiver.Naming.Registry.{
  Instrument, unset, gauge, sum, up_down_counter, other, same_instrument,
}
use networkdevicereceiver.Report.Pool.{
  Pool, MetricData, Stream, Found, found, refused, Offer, stream_key, start_time, started,
  new_metric, metric_named, metric, data_of, instrument_of, content_at, append_point, replace_value,
  add_stream, add_found, add,
}

-- What a key holds, it goes on holding.
abbrev pub Extends : Dict ℕ → Dict ℕ → Type 0
Extends old new =
    (key : Str) (start : ℕ) → Dict.lookup key old ≡ some start → Dict.lookup key new ≡ some start

start_time-Extends :
    (k : Str) (now : ℕ) (starts : Dict ℕ) → Extends starts (start_time k now starts).1
unfolding start_time
start_time-Extends k now starts key start e = elim (Option-cases (Dict.lookup k starts)) [
  | inr (t, known) ↦ rw (known, start_time) e
  | inl new ↦
      rw (new, start_time) (ground (arith, str_eq_iff k key, lookup-insert k key now starts))
]

module _ {fl : Floats} where
  metric_named-starts :
      (name unit : Str) (i : Instrument) (o : Option ℕ) (p : Pool fl)
      → (metric_named name unit i o p).0.start_times ≡ p.start_times
  unfolding metric_named new_metric
  metric_named-starts name unit i (some at) p =
      elim (Bool-cases (same_instrument (instrument_of (content_at p.metrics at)) i)) [
        | inl same ↦ rw same refl
        | inr differs ↦ rw differs refl
      ]
  metric_named-starts name unit i none p = new (data_of i)
    where
      new : (d : Option MetricData) → (new_metric name unit i d p).0.start_times ≡ p.start_times
      new none = refl
      new (some content) = refl

  Extends-refl : (p : Pool fl) → Extends p.start_times p.start_times
  Extends-refl p key start e = e

  append_point-Extends :
      (o : Offer fl) (at : ℕ) (p : Pool fl)
      → Extends p.start_times (append_point o at p).start_times
  unfolding append_point
  append_point-Extends o at p = by_instrument o.instrument
    where
      by_instrument :
          (i : Instrument)
          → Extends p.start_times (started i (stream_key o.name o.attrs) o.ts p.start_times).1
      by_instrument gauge = Extends-refl p
      by_instrument sum = start_time-Extends (stream_key o.name o.attrs) o.ts p.start_times
      by_instrument up_down_counter =
          start_time-Extends (stream_key o.name o.attrs) o.ts p.start_times
      by_instrument unset = start_time-Extends (stream_key o.name o.attrs) o.ts p.start_times
      by_instrument (other i) = start_time-Extends (stream_key o.name o.attrs) o.ts p.start_times

  replace_value-Extends :
      (o : Offer fl) (s : Stream) (p : Pool fl)
      → Extends p.start_times (replace_value o s p).start_times
  unfolding replace_value
  replace_value-Extends o s p = elim (Bool-cases (int_less s.priority o.priority)) [
    | inl e ↦ rw e (Extends-refl p)
    | inr e ↦ rw e (Extends-refl p)
  ]

  add_stream-Extends :
      (o : Offer fl) (at : ℕ) (s : Option Stream) (p : Pool fl)
      → Extends p.start_times (add_stream o at s p).start_times
  unfolding add_stream
  add_stream-Extends o at none p = append_point-Extends o at p
  add_stream-Extends o at (some s) p = replace_value-Extends o s p

  add_found-Extends :
      (o : Offer fl) (p : Pool fl) (f : Found)
      → Extends p.start_times (add_found o (p, f)).0.start_times
  unfolding add_found
  add_found-Extends o p (refused e) = Extends-refl p
  add_found-Extends o p (found at) =
      add_stream-Extends o at (Dict.lookup (stream_key o.name o.attrs) p.streams) p

  -- An offer leaves every start time that is there as it is.
  pub add-Extends : (o : Offer fl) (p : Pool fl) → Extends p.start_times (add o p).0.start_times
  unfolding add metric
  add-Extends o p =
      let (q, f) = metric o.name o.unit o.instrument p in
      let same = metric_named-starts o.name o.unit o.instrument (Dict.lookup o.name p.by_name) p in
      subst (λ starts. Extends starts (add_found o (q, f)).0.start_times) same
        (add_found-Extends o q f)
