-- ===== src/Report/Pool/Placed.antt =====
-- internal/report/pool.go: where the datapoint of a stream stands, and with which start time.
use networkdevicereceiver.Base.{
  ℕ, zero, suc, ◌<◌, ◌≡◌, refl, sym, ap, ◌∙◌, subst, inl, inr, Bool-cases, Option-cases, true,
  false, Option, none, some, List, [], ◌∷◌, ◌++◌, arith, length, get_elem?, Any, int_less, ℤ, Str,
  str_eq, str_eq_iff, str_eq_refl, Floats,
}
use networkdevicereceiver.Base.Dict
use networkdevicereceiver.Base.Dict.{Dict, lookup-insert}
use networkdevicereceiver.Naming.Registry.{
  Instrument, unset, gauge, sum, up_down_counter, other, same_instrument,
}
use networkdevicereceiver.Report.Pool.{
  Point, Pool, Metric, MetricData, no_data, gauge_data, sum_data, Stream, Found, found, refused,
  Offer, key_of, stream_key, start_time, started, new_metric, metric_named, metric, data_of,
  instrument_of, content_at, empty_metric, change_at, append_point, replace_value, add_stream,
  add_found, add,
}
use networkdevicereceiver.Report.Pool.Offers.Streams.{get-append-old, get-append-new}

-- A sum has the start time of its stream, a gauge none.
abbrev pub start_in : MetricData → Option ℕ → Option ℕ
start_in no_data o = none
start_in gauge_data o = none
start_in (sum_data monotonic) o = o

-- The start time that an instrument gives is that of its metric's data.
Fits : MetricData → Instrument → Type 0
Fits c i =
    (key : Str) (now : ℕ) (starts : Dict ℕ)
    → (started i key now starts).0 ≡ start_in c (Dict.lookup key (started i key now starts).1)

start_time-lookup :
    (key : Str) (now : ℕ) (starts : Dict ℕ)
    → some (start_time key now starts).0 ≡ Dict.lookup key (start_time key now starts).1
unfolding start_time
start_time-lookup key now starts = elim (Option-cases (Dict.lookup key starts)) [
  | inl new ↦
      rw (new, start_time) (ground (arith, lookup-insert key key now starts, str_eq_refl key))
  | inr (t, known) ↦ rw (known, start_time) (sym known)
]

start_time-other :
    (key j : Str) (now : ℕ) (starts : Dict ℕ)
    → str_eq key j ≡ false
    → Dict.lookup j (start_time key now starts).1 ≡ Dict.lookup j starts
unfolding start_time
start_time-other key j now starts e = elim (Option-cases (Dict.lookup key starts)) [
  | inl new ↦ rw (new, start_time) (lookup-insert key j now starts ∙ rw e)
  | inr (t, known) ↦ rw (known, start_time)
]

Fits-data_of : (i : Instrument) (c : MetricData) → data_of i ≡ some c → Fits c i
unfolding Fits
Fits-data_of gauge c e =
    let q : gauge_data ≡ c = cc e in subst (λ d. Fits d gauge) q (λ key now starts. refl)
Fits-data_of sum c e =
    let q : sum_data true ≡ c = cc e in subst (λ d. Fits d sum) q start_time-lookup
Fits-data_of up_down_counter c e =
    let q : sum_data false ≡ c = cc e in subst (λ d. Fits d up_down_counter) q start_time-lookup
Fits-data_of unset c e = cc
Fits-data_of (other s) c e = cc

Fits-same :
    (c : MetricData) (i : Instrument) → same_instrument (instrument_of c) i ≡ true → Fits c i
unfolding Fits same_instrument instrument_of
Fits-same no_data gauge e = λ key now starts. refl
Fits-same gauge_data gauge e = λ key now starts. refl
Fits-same (sum_data true) sum e = start_time-lookup
Fits-same (sum_data false) up_down_counter e = start_time-lookup
Fits-same no_data sum e = cc
Fits-same no_data up_down_counter e = cc
Fits-same no_data unset e = cc
Fits-same no_data (other s) e = cc
Fits-same gauge_data sum e = cc
Fits-same gauge_data up_down_counter e = cc
Fits-same gauge_data unset e = cc
Fits-same gauge_data (other s) e = cc
Fits-same (sum_data true) gauge e = cc
Fits-same (sum_data true) up_down_counter e = cc
Fits-same (sum_data true) unset e = cc
Fits-same (sum_data true) (other s) e = cc
Fits-same (sum_data false) gauge e = cc
Fits-same (sum_data false) sum e = cc
Fits-same (sum_data false) unset e = cc
Fits-same (sum_data false) (other s) e = cc

get-lt {ℓ} : {A : Type ℓ} (xs : List A) (i : ℕ) (x : A) → get_elem? xs i ≡ some x → i < length xs
get-lt [] i x e = cc
get-lt (y ∷ xs) zero x e = omega arith
get-lt (y ∷ xs) (suc i) x e = omega (arith, get-lt xs i x e)

get-append {ℓ} :
    {A : Type ℓ} (xs ys : List A) (i : ℕ) (x : A)
    → get_elem? xs i ≡ some x
    → get_elem? (xs ++ ys) i ≡ some x
get-append xs ys i x e = get-append-old xs ys i (get-lt xs i x e) ∙ e

-- What a change keeps of an element.
get-change {ℓ} :
    {A : Type ℓ} (P : A → Type 0) (f : A → A)
    → ((x : A) → P x → P (f x))
    → (xs : List A) (n i : ℕ) (x : A) → get_elem? xs i ≡ some x
    → P x
    → (y : A) × (get_elem? (change_at n f xs) i ≡ some y) × P y
unfolding change_at
get-change P f k [] n i x e h = cc
get-change P f k (y ∷ xs) zero zero x e h = let q : x ≡ y = cc e in (f y, refl, k y (subst P q h))
get-change P f k (y ∷ xs) zero (suc i) x e h = (x, e, h)
get-change P f k (y ∷ xs) (suc n) zero x e h = (x, e, h)
get-change P f k (y ∷ xs) (suc n) (suc i) x e h = get-change P f k xs n i x e h

get-changed {ℓ} :
    {A : Type ℓ} (f : A → A) (xs : List A) (n : ℕ) (x : A)
    → get_elem? xs n ≡ some x
    → get_elem? (change_at n f xs) n ≡ some (f x)
unfolding change_at
get-changed f [] n x e = cc
get-changed f (y ∷ xs) zero x e = let q : y ≡ x = cc e in ap (λ z. some (f z)) q
get-changed f (y ∷ xs) (suc n) x e = get-changed f xs n x e

Any-append : (n : ℕ) (xs ys : List ℕ) → Any (λ k. k ≡ n) xs → Any (λ k. k ≡ n) (xs ++ ys)
Any-append n [] ys h = absurd h
Any-append n (x ∷ xs) ys (inl e) = inl e
Any-append n (x ∷ xs) ys (inr h) = inr (Any-append n xs ys h)

Any-last : (n : ℕ) (xs : List ℕ) → Any (λ k. k ≡ n) (xs ++ n ∷ [])
Any-last n [] = inl refl
Any-last n (x ∷ xs) = inr (Any-last n xs)

content-of :
    (ms : List Metric) (at : ℕ) (m : Metric)
    → get_elem? ms at ≡ some m
    → content_at ms at ≡ m.content
content-of ms at m got = rw (got, content_at)

started-other :
    (i : Instrument) (key j : Str) (now : ℕ) (starts : Dict ℕ)
    → str_eq key j ≡ false
    → Dict.lookup j (started i key now starts).1 ≡ Dict.lookup j starts
started-other gauge key j now starts e = refl
started-other unset key j now starts e = start_time-other key j now starts e
started-other sum key j now starts e = start_time-other key j now starts e
started-other up_down_counter key j now starts e = start_time-other key j now starts e
started-other (other s) key j now starts e = start_time-other key j now starts e

module _ {fl : Floats} where
  -- A metric of the stream's name lists its datapoint, which has the stream's attributes and, in a sum, the
  -- start time that is recorded for the stream.
  pub record IsIn (p : Pool fl) (key : Str) (s : Stream) : Type 0 where
    pub at : ℕ
    pub metric : Metric
    pub point : Point fl
    pub holds : get_elem? p.metrics at ≡ some metric
    pub listed : Any (λ n. n ≡ s.point) metric.points
    pub there : get_elem? p.heap s.point ≡ some point
    pub keyed : key ≡ stream_key metric.name point.attributes
    pub start : point.start ≡ start_in metric.content (Dict.lookup key p.start_times)

  abbrev IsNamed : Pool fl → Str → ℕ → Type 0
  IsNamed p name at = (m : Metric) × (get_elem? p.metrics at ≡ some m) × (m.name ≡ name)

  pub record IsPlaced (p : Pool fl) : Type 0 where
    -- a metric is found by its own name
    pub named : (name : Str) (at : ℕ) → Dict.lookup name p.by_name ≡ some at → IsNamed p name at
    pub placed : (key : Str) (s : Stream) → Dict.lookup key p.streams ≡ some s → IsIn p key s

  -- One more metric at the end.
  wider :
      (p : Pool fl) (m : Metric) (key : Str) (s : Stream) (by_name : Dict ℕ)
      → IsIn p key s
      → IsIn (record p { metrics = p.metrics ++ m ∷ []; by_name = by_name }) key s
  wider p m key s by_name h = record {
    at = h.at;
    metric = h.metric;
    point = h.point;
    holds = get-append p.metrics (m ∷ []) h.at h.metric h.holds;
    listed = h.listed;
    there = h.there;
    keyed = h.keyed;
    start = h.start;
  }

  -- What is found has the name that was asked for, and data of the instrument.
  abbrev IsFound : Str → Instrument → Pool fl × Found → Type 0
  IsFound name i (p, refused e) = Unit
  IsFound name i (p, found at) =
      (m : Metric) × (get_elem? p.metrics at ≡ some m) × (m.name ≡ name) × Fits m.content i

  new_metric-IsPlaced :
      (name unit : Str) (i : Instrument) (d : Option MetricData) (p : Pool fl)
      → data_of i ≡ d
      → IsPlaced p
      → IsPlaced (new_metric name unit i d p).0 × IsFound name i (new_metric name unit i d p)
  unfolding new_metric
  new_metric-IsPlaced name unit i none p e h = (
    record {
      named = λ n at k.
          let (m, got, same) = h.named n at k in (m, get-append p.metrics _ at m got, same);
      placed = λ key s k. wider p _ key s p.by_name (h.placed key s k);
    },
    tt,
  )
  new_metric-IsPlaced name unit i (some c) p e h = (
    record {
      named = λ n at k. elim (Bool-cases (str_eq name n)) [
        | inl same ↦
            let here : some (length p.metrics) ≡ some at =
              rw (lookup-insert name n (length p.metrics) p.by_name, same) at k in
            let q : length p.metrics ≡ at = cc here in
            (
              empty_metric name unit c,
              subst
                  (λ j.
                    get_elem? (p.metrics ++ empty_metric name unit c ∷ []) j
                    ≡ some (empty_metric name unit c))
                  q (get-append-new p.metrics (empty_metric name unit c)),
              unfold empty_metric in (str_eq_iff name n).0 same,
            )
        | inr differs ↦
            let (m, got, called) =
              h.named n at (rw (lookup-insert name n (length p.metrics) p.by_name, differs) at k) in
            (m, get-append p.metrics _ at m got, called)
      ];
      placed = λ key s k. wider p _ key s _ (h.placed key s k);
    },
    (
      empty_metric name unit c,
      get-append-new p.metrics (empty_metric name unit c),
      unfold empty_metric in refl,
      unfold empty_metric in Fits-data_of i c e,
    ),
  )

  metric_named-IsPlaced :
      (name unit : Str) (i : Instrument) (o : Option ℕ) (p : Pool fl)
      → Dict.lookup name p.by_name ≡ o
      → IsPlaced p
      → IsPlaced (metric_named name unit i o p).0 × IsFound name i (metric_named name unit i o p)
  unfolding metric_named
  metric_named-IsPlaced name unit i none p e h =
      new_metric-IsPlaced name unit i (data_of i) p refl h
  metric_named-IsPlaced name unit i (some at) p e h =
      let (m, got, called) = h.named name at e in
      elim (Bool-cases (same_instrument (instrument_of (content_at p.metrics at)) i)) [
        | inl same ↦
            let fits : same_instrument (instrument_of m.content) i ≡ true =
              subst (λ c. same_instrument (instrument_of c) i ≡ true)
                (content-of p.metrics at m got) same in
            rw same (h, (m, got, called, Fits-same m.content i fits))
        | inr differs ↦ rw differs (h, tt)
      ]

  module _ (o : Offer fl) (p : Pool fl) (h : IsPlaced p) where
    append_point-IsPlaced :
        (at : ℕ) (m : Metric)
        → get_elem? p.metrics at ≡ some m
        → m.name ≡ o.name
        → Fits m.content o.instrument
        → IsPlaced (append_point o at p)
    unfolding append_point
    append_point-IsPlaced at m got called fits = record {
      named = λ name i e.
          let (m', got', same) = h.named name i e in
          get-change (λ x. x.name ≡ name) list_it (λ x q. q) p.metrics at i m' got' same;
      placed = λ key s e. elim (Bool-cases (str_eq (key_of o) key)) [
        | inl own ↦
            let q : some new ≡ some s = rw (lookup-insert (key_of o) key new p.streams, own) at e in
            subst (λ t. IsIn (append_point o at p) key t) (cc q)
              (subst (λ k. IsIn (append_point o at p) k new) ((str_eq_iff (key_of o) key).0 own)
                mine)
        | inr differs ↦
            let old =
              h.placed key s (rw (lookup-insert (key_of o) key new p.streams, differs) at e) in
            let (m', got', (listed, keyed, start)) =
              get-change
                (λ x.
                  Any (λ n. n ≡ s.point) x.points
                  × (key ≡ stream_key x.name old.point.attributes)
                  × (old.point.start ≡ start_in x.content (Dict.lookup key p.start_times)))
                list_it (λ x k. (Any-append s.point x.points (length p.heap ∷ []) k.0, k.1, k.2))
                p.metrics at old.at old.metric old.holds (old.listed, old.keyed, old.start) in
            record {
              at = old.at;
              metric = m';
              point = old.point;
              holds = got';
              listed = listed;
              there = get-append p.heap _ s.point old.point old.there;
              keyed = keyed;
              start =
                  start
                  ∙ ap (start_in m'.content)
                      (sym (started-other o.instrument (key_of o) key o.ts p.start_times differs));
            }
      ];
    }
      where
        new : Stream
        new = record { point = length p.heap; priority = o.priority }

        list_it : Metric → Metric
        list_it x = record x { points = x.points ++ length p.heap ∷ [] }

        point : Point fl
        point = record {
          attributes = o.attrs;
          value = o.value;
          time = o.ts;
          start = (started o.instrument (key_of o) o.ts p.start_times).0;
        }

        mine : IsIn (append_point o at p) (key_of o) new
        mine = record {
          at = at;
          metric = list_it m;
          point = point;
          holds = get-changed list_it p.metrics at m got;
          listed = Any-last (length p.heap) m.points;
          there = get-append-new p.heap point;
          keyed = ap (λ n. stream_key n o.attrs) (sym called);
          start = unfold Fits in fits (key_of o) o.ts p.start_times;
        }

    -- A new value in a datapoint that is there.
    revalued :
        (n : ℕ) (key : Str) (s : Stream) (streams : Dict Stream)
        → IsIn p key s
        → IsIn
            (record p {
              heap = change_at n (λ q. record q { value = o.value }) p.heap;
              streams = streams;
            })
            key
            s
    revalued n key s streams old =
        let (q, there, (attrs, start)) =
          get-change
            (λ (q : Point fl). (old.point.attributes ≡ q.attributes) × (q.start ≡ old.point.start))
            (λ q. record q { value = o.value }) (λ q k. k) p.heap n s.point old.point old.there
            (refl, refl) in
        record {
          at = old.at;
          metric = old.metric;
          point = q;
          holds = old.holds;
          listed = old.listed;
          there = there;
          keyed = old.keyed ∙ ap (stream_key old.metric.name) attrs;
          start = start ∙ old.start;
        }

    reprioritized :
        (q : Pool fl) (key : Str) (s : Stream) (priority : ℤ)
        → IsIn q key s
        → IsIn q key (record s { priority = priority })
    reprioritized q key s priority old = record {
      at = old.at;
      metric = old.metric;
      point = old.point;
      holds = old.holds;
      listed = old.listed;
      there = old.there;
      keyed = old.keyed;
      start = old.start;
    }

    raised : Stream → Pool fl
    raised existing = record p {
      heap = change_at existing.point (λ q. record q { value = o.value }) p.heap;
      streams = Dict.insert (key_of o) (record existing { priority = o.priority }) p.streams;
    }

    raised-IsPlaced :
        (existing : Stream)
        → Dict.lookup (key_of o) p.streams ≡ some existing
        → IsPlaced (raised existing)
    unfolding raised
    raised-IsPlaced existing known =
        let new : Stream = record existing { priority = o.priority } in
        record {
          named = h.named;
          placed = λ key s e. elim (Bool-cases (str_eq (key_of o) key)) [
            | inl own ↦
                let q : some new ≡ some s =
                  rw (lookup-insert (key_of o) key new p.streams, own) at e in
                let here =
                  subst (λ k. Dict.lookup k p.streams ≡ some existing)
                    ((str_eq_iff (key_of o) key).0 own) known in
                subst (λ t. IsIn (raised existing) key t) (cc q)
                  (reprioritized (raised existing) key existing o.priority (
                    revalued existing.point key existing (raised existing).streams
                      (h.placed key existing here)))
            | inr differs ↦
                revalued existing.point key s (raised existing).streams
                  (h.placed key s (rw (lookup-insert (key_of o) key new p.streams, differs) at e))
          ];
        }

    replace_value-IsPlaced :
        (existing : Stream)
        → Dict.lookup (key_of o) p.streams ≡ some existing
        → IsPlaced (replace_value o existing p)
    unfolding replace_value raised
    replace_value-IsPlaced existing known =
        elim (Bool-cases (int_less existing.priority o.priority)) [
          | inr lower ↦ rw lower h
          | inl higher ↦ rw higher (raised-IsPlaced existing known)
        ]

    add_stream-IsPlaced :
        (at : ℕ) (s : Option Stream) (m : Metric)
        → Dict.lookup (key_of o) p.streams ≡ s
        → get_elem? p.metrics at ≡ some m
        → m.name ≡ o.name
        → Fits m.content o.instrument
        → IsPlaced (add_stream o at s p)
    unfolding add_stream
    add_stream-IsPlaced at none m e got called fits = append_point-IsPlaced at m got called fits
    add_stream-IsPlaced at (some s) m e got called fits = replace_value-IsPlaced s e

  add_found-IsPlaced :
      (o : Offer fl) (r : Pool fl × Found)
      → IsPlaced r.0
      → IsFound o.name o.instrument r
      → IsPlaced (add_found o r).0
  unfolding add_found
  add_found-IsPlaced o (p, refused e) h f = h
  add_found-IsPlaced o (p, found at) h (m, got, called, fits) =
      add_stream-IsPlaced o p h at (Dict.lookup (key_of o) p.streams) m refl got called fits

  pub add-IsPlaced : (o : Offer fl) (p : Pool fl) → IsPlaced p → IsPlaced (add o p).0
  unfolding add metric
  add-IsPlaced o p h =
      let (placed, fits) =
        metric_named-IsPlaced o.name o.unit o.instrument (Dict.lookup o.name p.by_name) p refl h in
      add_found-IsPlaced o _ placed fits
