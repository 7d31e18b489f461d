-- ===== src/Report/Pool/Offers.antt =====
-- internal/report/pool.go: what a stream shows after an offer.
pub mod Streams
use networkdevicereceiver.Base.{
  int_less, ℕ, zero, suc, ◌+◌, ◌<◌, ◌≤◌, ◌≡◌, refl, sym, ap, ◌∙◌, subst, ◌⊎◌, inl, inr, Bool,
  Bool-cases, Option-cases, true, false, Option, none, some, List, [], ◌∷◌, ◌++◌, arith,
  if◌then◌else◌, length, length-append, get_elem?, Str, str_eq, str_eq_iff, str_eq_refl, ℤ, Floats,
}
use networkdevicereceiver.Base.Dict
use networkdevicereceiver.Base.Dict.{Dict, lookup-insert}
use networkdevicereceiver.Naming.Registry.{Instrument, same_instrument}
use networkdevicereceiver.Report.Pool.{
  Point, MetricData, content_at, Stream, Pool, PoolError, Offer, key_of, change_at, data_of,
  instrument_of, new_metric, metric_named, metric, Found, found, refused, append_point,
  replace_value, add_stream, add_found, add,
}
use networkdevicereceiver.Report.Pool.Placed.{IsPlaced, add-IsPlaced}
use networkdevicereceiver.Report.Pool.Offers.Streams.{
  get-append-new, get-change-same, value_of, shown, IsSound, append-IsSound, change-IsSound,
  shown-append, shown-change,
}

module _ {fl : Floats} where
  -- The value that a stream's datapoint has, and its priority.
  pub view : Pool fl → Str → Option (fl.F × ℤ)
  view p key = shown p.heap (Dict.lookup key p.streams)

  -- A value is kept unless the new one has a higher priority.
  abbrev pub offered : Offer fl → Option (fl.F × ℤ) → Option (fl.F × ℤ)
  offered o none = some (o.value, o.priority)
  offered o (some (v, q)) =
      if int_less q o.priority then some (o.value, o.priority) else some (v, q)

  -- An offer that is refused changes no stream, and one that is accepted only its own.
  abbrev pub after_offer : Offer fl → Option PoolError → Str → Option (fl.F × ℤ) → Option (fl.F × ℤ)
  after_offer o none key v = if str_eq (key_of o) key then offered o v else v
  after_offer o (some e) key v = v

  abbrev IsSoundPool : Pool fl → Type 0
  IsSoundPool p = IsSound p.heap p.streams

  append_point-offer :
      (o : Offer fl) (at : ℕ) (p : Pool fl)
      → IsSound p.heap p.streams
      → Dict.lookup (key_of o) p.streams ≡ none
      → IsSoundPool (append_point o at p)
        × ((key : Str) → view (append_point o at p) key ≡ after_offer o none key (view p key))
  unfolding append_point view
  append_point-offer o at p sound new = (
    append-IsSound p.heap p.streams sound (key_of o) _ o.priority,
    λ key. elim (Bool-cases (str_eq (key_of o) key)) [
      | inl same ↦
          let fresh =
            subst (λ k. Dict.lookup k p.streams ≡ none) ((str_eq_iff (key_of o) key).0 same) new in
          rw (lookup-insert, same, fresh) (rw get-append-new)
      | inr other ↦ rw (lookup-insert, other) (shown-append p.heap p.streams sound _ key)
    ],
  )

  known-at :
      (o : Offer fl) (s : Stream) (p : Pool fl) (key : Str)
      → Dict.lookup (key_of o) p.streams ≡ some s
      → str_eq (key_of o) key ≡ true
      → Dict.lookup key p.streams ≡ some s
  known-at o s p key known same =
      subst (λ k. Dict.lookup k p.streams ≡ some s) ((str_eq_iff (key_of o) key).0 same) known

  replace_value-offer :
      (o : Offer fl) (s : Stream) (p : Pool fl)
      → IsSound p.heap p.streams
      → Dict.lookup (key_of o) p.streams ≡ some s
      → IsSoundPool (replace_value o s p)
        × ((key : Str) → view (replace_value o s p) key ≡ after_offer o none key (view p key))
  unfolding replace_value view
  replace_value-offer o s p sound known = elim (Bool-cases (int_less s.priority o.priority)) [
    | inl higher ↦ rw higher (
      change-IsSound p.heap p.streams sound (key_of o) s _ o.priority known,
      λ key. elim (Bool-cases (str_eq (key_of o) key)) [
        | inl same ↦
            let here = known-at o s p key known same in
            let (x, old, changed) =
              get-change-same (λ (q : Point fl). record q { value = o.value }) p.heap s.point
                (sound.inside (key_of o) s known) in
            rw (lookup-insert, same, here) (rw (old, changed, higher))
        | inr other ↦
            rw (lookup-insert, other)
              (shown-change p.heap p.streams sound _ (key_of o) key s known
                (λ q. ground (arith, (str_eq_iff (key_of o) key).1 q, other)))
      ],
    )
    | inr lower ↦ rw lower (
      sound,
      λ key. elim (Bool-cases (str_eq (key_of o) key)) [
        | inl same ↦
            let here = known-at o s p key known same in
            let (x, old, _) =
              get-change-same (λ (q : Point fl). q) p.heap s.point
                (sound.inside (key_of o) s known) in
            rw (same, here) (rw (old, lower))
        | inr other ↦ rw other
      ],
    )
  ]

  metric_named-keeps :
      (name unit : Str) (i : Instrument) (o : Option ℕ) (p : Pool fl)
      → ((metric_named name unit i o p).0.heap ≡ p.heap)
        × ((metric_named name unit i o p).0.streams ≡ p.streams)
  unfolding metric_named new_metric
  metric_named-keeps name unit i (some at) p =
      elim (Bool-cases (same_instrument (instrument_of (content_at p.metrics at)) i)) [
        | inl same ↦ rw same (refl, refl)
        | inr other ↦ rw other (refl, refl)
      ]
  metric_named-keeps name unit i none p = new (data_of i)
    where
      new :
          (d : Option MetricData)
          → ((new_metric name unit i d p).0.heap ≡ p.heap)
            × ((new_metric name unit i d p).0.streams ≡ p.streams)
      new none = (refl, refl)
      new (some content) = (refl, refl)

  add_stream-offer :
      (o : Offer fl) (at : ℕ) (p : Pool fl) (s : Option Stream)
      → IsSound p.heap p.streams
      → Dict.lookup (key_of o) p.streams ≡ s
      → IsSoundPool (add_stream o at s p)
        × ((key : Str) → view (add_stream o at s p) key ≡ after_offer o none key (view p key))
  unfolding add_stream
  add_stream-offer o at p none sound e = append_point-offer o at p sound e
  add_stream-offer o at p (some s) sound e = replace_value-offer o s p sound e

  add_found-offer :
      (o : Offer fl) (p : Pool fl) (f : Found)
      → IsSound p.heap p.streams
      → IsSoundPool (add_found o (p, f)).0
        × ((key : Str)
            → view (add_found o (p, f)).0 key
              ≡ after_offer o (add_found o (p, f)).1 key (view p key))
  unfolding add_found
  add_found-offer o p (refused e) sound = (sound, λ key. refl)
  add_found-offer o p (found at) sound =
      add_stream-offer o at p (Dict.lookup (key_of o) p.streams) sound refl

  -- On a pool in which each stream has a datapoint of its own, in a metric of its name, with its attributes
  -- and, in a sum, the start time recorded for it: after an offer this holds again, and every other stream
  -- shows what it showed; the offer's own shows the new value if it had none, or one of a lower priority. An
  -- offer that is refused leaves every stream as it was.
  pub add-offer :
      (o : Offer fl) (p : Pool fl)
      → IsSound p.heap p.streams
      → IsPlaced p
      → IsSound (add o p).0.heap (add o p).0.streams
        × IsPlaced (add o p).0
        × ((key : Str) → view (add o p).0 key ≡ after_offer o (add o p).1 key (view p key))
  unfolding add metric view
  add-offer o p sound placed =
      let (q, f) = metric o.name o.unit o.instrument p in
      let (heap, streams) =
        metric_named-keeps o.name o.unit o.instrument (Dict.lookup o.name p.by_name) p in
      let (again, shows) = add_found-offer o q f (rw (heap, streams) sound) in
      (
        again,
        add-IsPlaced o p placed,
        λ key.
            shows key
            ∙ ap (after_offer o (add_found o (q, f)).1 key)
                (λ i. shown (heap i) (Dict.lookup key (streams i))),
      )
