-- ===== src/Tests/Collect.antt =====
-- What a profile collects and how its rows are indexed, at concrete inputs.
use networkdevicereceiver.Base.{
  ◌++◌, ℕ, ◌-◌, ◌≡◌, refl, some, [], ◌∷◌, arith, length, Str, lit, split,
}
use networkdevicereceiver.Base.Dict
use networkdevicereceiver.Profile.Definition.{ProfileDefinition, MetadataField, bare_symbol}
use networkdevicereceiver.Profile.Store.{merge}
use networkdevicereceiver.Profile.Store.Merge.{field_of, tags_of, or_else, merge-child_first}
use networkdevicereceiver.Profile.Compile.{Compiled, fetch_oids, mark_missing}
use networkdevicereceiver.Profile.Compile.Pruned.{unreported, fetch_oids-mark_missing}
use networkdevicereceiver.Report.Transform.{transform_index}
use networkdevicereceiver.Report.Transform.Index.{range, transform_index-ranges}
use networkdevicereceiver.Tests.Floats.{whole}

abbrev constant : Str → MetadataField whole
constant v = record { symbol = bare_symbol whole [] []; symbols = []; value = v }

abbrev vendor : Str → ProfileDefinition whole
vendor v = record {
  name = v;
  description = [];
  sys_object_ids = [];
  extends = [];
  metrics = [];
  metric_tags = [];
  static_tags = v ∷ [];
  metadata = (lit "device", record { fields = (lit "vendor", constant v) ∷ []; id_tags = [] }) ∷ [];
  device_vendor = [];
}

merge-child_first_example :
    ((r f : Str)
      → field_of (merge (vendor (lit "c")) (vendor (lit "p"))).metadata r f
        ≡ or_else
            (field_of (vendor (lit "c")).metadata r f)
            (field_of (vendor (lit "p")).metadata r f))
    × ((r : Str)
        → tags_of (merge (vendor (lit "c")) (vendor (lit "p"))).metadata r
          ≡ tags_of (vendor (lit "c")).metadata r ++ tags_of (vendor (lit "p")).metadata r)
    × ((merge (vendor (lit "c")) (vendor (lit "p"))).metrics ≡ [])
    × ((merge (vendor (lit "c")) (vendor (lit "p"))).metric_tags ≡ [])
    × ((merge (vendor (lit "c")) (vendor (lit "p"))).static_tags ≡ lit "c" ∷ lit "p" ∷ [])
unfolding Dict.lookup
merge-child_first_example = merge-child_first (vendor (lit "c")) (vendor (lit "p")) (refl, tt)

abbrev router_profile : Compiled whole ℕ
router_profile = record {
  name = lit "r";
  definition = vendor (lit "r");
  scalar_oids = lit "1.1" ∷ lit "1.2" ∷ [];
  column_oids = lit "2.1" ∷ [];
  regexes = [];
  missing = [];
}

fetch_oids-mark_missing_example : fetch_oids (mark_missing (lit ".1.2" ∷ []) router_profile) ≡ (
  unreported (lit ".1.2" ∷ []) (fetch_oids router_profile).0,
  unreported (lit ".1.2" ∷ []) (fetch_oids router_profile).1,
)
fetch_oids-mark_missing_example = fetch_oids-mark_missing (lit ".1.2" ∷ []) router_profile

transform_index-ranges_example :
    (transform_index (lit "6.7.8") (range 0 0 ∷ range 1 2 ∷ [])
      ≡ transform_index (lit "6.7.8") (range 0 2 ∷ []))
    × (transform_index (lit "6.7.8") (range 0 (length (split b'.' (lit "6.7.8")) - 1) ∷ [])
        ≡ some (lit "6.7.8"))
unfolding split
transform_index-ranges_example =
    transform_index-ranges (lit "6.7.8") 0 0 2 (omega arith) (omega arith) (omega arith)
      (omega arith)
