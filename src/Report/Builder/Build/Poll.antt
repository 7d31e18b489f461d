-- ===== src/Report/Builder/Build/Poll.antt =====
-- internal/report/builder.go: what one poll leaves in the pool and in the builder.
use networkdevicereceiver.Base.{ℕ, ◌≡◌, ◌∙◌, ap, some, Any, get_elem?, Str, Floats}
use networkdevicereceiver.Base.Dict
use networkdevicereceiver.Profile.Compile.{Compiled}
use networkdevicereceiver.Snmp.Value.{ValueStore}
use networkdevicereceiver.Report.Text.{Regexes, Addresses}
use networkdevicereceiver.Report.Resource.{DeviceInfo}
use networkdevicereceiver.Report.Pool.{Point, Pool, Metric, Stream, stream_key, new_metric_pool}
use networkdevicereceiver.Report.Pool.Placed.{start_in, IsPlaced, add-IsPlaced}
use networkdevicereceiver.Report.Pool.Starts.{Extends, add-Extends}
use networkdevicereceiver.Report.Builder.Keeps.{IsKept}
use networkdevicereceiver.Report.Builder.Build.{Builder, build}
use networkdevicereceiver.Report.Builder.Build.Keeps.{build-keeps}

module _ (fl : Floats) where
  IsPlaced-IsKept : IsKept fl IsPlaced
  IsPlaced-IsKept = record { keeps = add-IsPlaced }

  Extends-IsKept : (b : Builder fl) → IsKept fl (λ p. Extends b.start_times p.start_times)
  Extends-IsKept b = record {
    keeps = λ o p old key start e. add-Extends o p key start (old key start e);
  }

  -- A metric of the pool lists the datapoint of the stream, which has that start time if it is of a sum, and
  -- none if it is of a gauge.
  pub record IsStartedAt (p : Pool fl) (key : Str) (s : Stream) (start : ℕ) : Type 0 where
    pub at : ℕ
    pub metric : Metric
    pub point : Point fl
    pub holds : get_elem? p.metrics at ≡ some metric
    pub listed : Any (λ n. n ≡ s.point) metric.points
    pub there : get_elem? p.heap s.point ≡ some point
    pub keyed : key ≡ stream_key metric.name point.attributes
    pub begins : point.start ≡ start_in metric.content (some start)

  module _ (ad : Addresses) (re : Regexes) (dev : DeviceInfo) (compiled : Compiled fl re.R)
      (store : ValueStore fl) (now : ℕ) (b : Builder fl) where
    built_pool : Pool fl
    built_pool = (build fl ad re dev compiled store now b).0.pool

    kept_starts : Extends b.start_times built_pool.start_times
    unfolding new_metric_pool built_pool
    kept_starts =
        build-keeps fl (λ p. Extends b.start_times p.start_times) (Extends-IsKept b) ad re dev
          compiled store now b (λ key start e. e)

    built-IsPlaced : IsPlaced built_pool
    unfolding new_metric_pool built_pool Dict.lookup
    built-IsPlaced =
        build-keeps fl IsPlaced IsPlaced-IsKept ad re dev compiled store now b
          (record { named = λ name at e. cc; placed = λ key s e. cc })

    -- A stream with a start time has the same start time after every later build of its device, and if the
    -- build emits the stream, then in a metric of its name, with its attributes and, in a sum, with that
    -- start time; a gauge has none.
    pub build-start_times :
        (key : Str) (start : ℕ)
        → Dict.lookup key b.start_times ≡ some start
        → (Dict.lookup key (build fl ad re dev compiled store now b).1.start_times ≡ some start)
          × ((s : Stream)
              → Dict.lookup key (build fl ad re dev compiled store now b).0.pool.streams ≡ some s
              → IsStartedAt (build fl ad re dev compiled store now b).0.pool key s start)
    unfolding built_pool
    build-start_times key start e = (
      unfold build in kept_starts key start e,
      λ s emitted.
          let h = built-IsPlaced.placed key s emitted in
          record {
            at = h.at;
            metric = h.metric;
            point = h.point;
            holds = h.holds;
            listed = h.listed;
            there = h.there;
            keyed = h.keyed;
            begins = h.start ∙ ap (start_in h.metric.content) (kept_starts key start e);
          },
    )
