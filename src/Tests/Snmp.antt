-- ===== src/Tests/Snmp.antt =====
-- internal/snmp at concrete inputs.
use networkdevicereceiver.Base.{
  arith, ℕ, ◌+◌, ◌≤◌, ◌<◌, ◌≡◌, refl, ◌↔◌, true, false, none, some, List, [], ◌∷◌, ◌++◌, length,
  All, Str, split, trim_prefix, has_prefix, trim_space, str_eq, lit, ltb, if◌then◌else◌, pos,
}
use networkdevicereceiver.Base.Dict
use networkdevicereceiver.Snmp.Oid.{
  canonical_oid, compare_oids, oid_less, row_index, longest_match, compare_arcs, compare_arc,
  parse_uint,
}
use networkdevicereceiver.Snmp.Oid.Order.{
  compare_oids-flip, compare_oids-numeric, oid_less_trans, flip, numeric,
}
use networkdevicereceiver.Snmp.Oid.Rows.{
  row_index_iff, longest_match_found, longest_match_none, IsAmong,
}
use networkdevicereceiver.Snmp.Batch.{
  BatchSizer, shrink, shrink_progress, new_batch_sizer, new_batch_sizer-IsSized,
}
use networkdevicereceiver.Snmp.Value.{Asn1, Any, Pdu, new_value_store}
use networkdevicereceiver.Snmp.Fetch.Session.{
  Limits, with_defaults, Session, SnmpError, answered, new_report,
}
use networkdevicereceiver.Snmp.Fetch.Scalars.{fetch_scalars, scalar_fuel, ScalarLoop}
use networkdevicereceiver.Snmp.Fetch.Scalars.Round.{IsDone}
use networkdevicereceiver.Snmp.Fetch.Scalars.Total.{fetch_scalars_total}
use networkdevicereceiver.Snmp.Fetch.Columns.{column_turn, column_start}
use networkdevicereceiver.Snmp.Fetch.Columns.Rounds.{IsWithin, rounds, walk-IsWithin}
use networkdevicereceiver.Snmp.Fetch.Consume.{consume}
use networkdevicereceiver.Snmp.Fetch.Consume.Rows.{IsCapped, consume-IsCapped}
use networkdevicereceiver.Snmp.Fetch.Consume.Forward.{Forward, consume-Forward}
use networkdevicereceiver.Tests.Floats.{whole}

abbrev two : Str
two = lit "1.3.2"

abbrev nine : Str
nine = lit "1.3.9"

abbrev ten : Str
ten = lit "1.3.10"

compare_oids-flip_example : compare_oids nine ten ≡ flip (compare_oids ten nine)
compare_oids-flip_example = compare_oids-flip nine ten

-- by numbers, where the texts are the other way round
compare_oids-numeric_example : compare_oids nine ten ≡ numeric (1 ∷ 3 ∷ 9 ∷ []) (1 ∷ 3 ∷ 10 ∷ [])
unfolding parse_uint canonical_oid split trim_prefix has_prefix trim_space
compare_oids-numeric_example =
    compare_oids-numeric nine ten (1 ∷ 3 ∷ 9 ∷ []) (1 ∷ 3 ∷ 10 ∷ []) (refl, (refl, (refl, tt)))
      (refl, (refl, (refl, tt)))

oid_less_trans_example : oid_less two ten ≡ true
unfolding parse_uint canonical_oid oid_less compare_oids compare_arcs compare_arc split trim_prefix
    has_prefix trim_space str_eq
oid_less_trans_example =
    oid_less_trans two nine ten (1 ∷ 3 ∷ 2 ∷ []) (1 ∷ 3 ∷ 9 ∷ []) (1 ∷ 3 ∷ 10 ∷ [])
      (refl, (refl, (refl, tt))) (refl, (refl, (refl, tt))) (refl, (refl, (refl, tt))) refl refl

row_index_iff_example :
    (row_index (lit ".1.3") ten ≡ some (lit "10"))
    ↔ (canonical_oid ten ≡ canonical_oid (lit ".1.3") ++ lit "." ++ lit "10")
row_index_iff_example = row_index_iff (lit ".1.3") ten (lit "10")

abbrev tables : List Str
tables = lit "1" ∷ lit "1.3" ∷ lit "1.4" ∷ []

longest_match_found_example :
    (row_index (lit "1.3") ten ≡ some (lit "10"))
    × IsAmong tables (lit "1.3")
    × All (λ c. (idx : Str) → row_index c ten ≡ some idx → length c ≤ 3) tables
unfolding longest_match row_index has_prefix canonical_oid trim_prefix trim_space
longest_match_found_example = longest_match_found tables ten (lit "1.3") (lit "10") refl

longest_match_none_example : All (λ c. row_index c (lit "2.3") ≡ none) tables
unfolding longest_match row_index has_prefix canonical_oid trim_prefix trim_space
longest_match_none_example = longest_match_none tables (lit "2.3") refl

abbrev full_batch : BatchSizer
full_batch = new_batch_sizer 5

shrink_progress_example :
    ((shrink full_batch).1 ≡ true → (shrink full_batch).0.current < full_batch.current)
    × ((shrink full_batch).1 ≡ false
        → (full_batch.current ≡ 1) × ((shrink full_batch).0 ≡ full_batch))
shrink_progress_example = shrink_progress full_batch (new_batch_sizer-IsSized 5)

-- A device that answers at most two OIDs at a time, each with 7, and no more than that is said of
-- what it is walked for.
abbrev sevens : List Str → List (Pdu whole)
sevens [] = []
sevens (oid ∷ oids) =
    record { name = oid; tag = Asn1.integer; value = Any.int (pos 7) } ∷ sevens oids

abbrev small_device : Session whole ℕ
small_device = record {
  get = λ oids w. (
    answered (
        if ltb 2 (length oids)
        then record { status = SnmpError.too_big; error_index = 0; variables = [] }
        else record { status = SnmpError.no_error; error_index = 0; variables = sevens oids }),
    w + 1,
  );
  get_bulk = λ oids n w.
      (answered (record { status = SnmpError.no_error; error_index = 0; variables = [] }), w);
  get_next = λ oids w.
      (answered (record { status = SnmpError.no_error; error_index = 0; variables = [] }), w);
  supports_get_bulk = true;
  ctx_err = λ w. (none, w);
}

abbrev asked : List Str
asked = lit "1.1" ∷ lit "1.2" ∷ lit "1.3" ∷ lit "1.4" ∷ lit "1.5" ∷ []

fetch_scalars_total_example :
    (s : ScalarLoop whole ℕ) × (fetch_scalars whole small_device 5 asked
        (new_value_store whole)
        new_report
        0
      ≡ some s)
    × IsDone whole (0 + scalar_fuel 5 asked) s
fetch_scalars_total_example =
    fetch_scalars_total whole small_device 5 asked (new_value_store whole) new_report 0

-- A response that goes back after a first row.
abbrev backwards : List (Pdu whole)
backwards = sevens (lit "1.3.2.5" ∷ lit "1.3.2.4" ∷ [])

abbrev positions : List (Str × Str)
positions = (two, two) ∷ []

consume-Forward_example :
    Forward positions
      (consume whole 3 backwards (two ∷ []) positions (new_value_store whole) new_report).next
consume-Forward_example =
    consume-Forward whole 3 backwards (two ∷ []) positions (new_value_store whole) new_report

consume-IsCapped_example :
    IsCapped whole 3
      (consume whole 3 backwards
        (two ∷ [])
        positions
        (new_value_store whole)
        new_report).store.columns
unfolding Dict.lookup
consume-IsCapped_example =
    consume-IsCapped whole 3 backwards (two ∷ []) positions (new_value_store whole) new_report
      (λ column rows e. cc)

abbrev limits : Limits
limits =
    with_defaults
      (record { oid_batch_size = pos 5; bulk_max_repetitions = 2; max_rows_per_column = pos 3 })

walk-IsWithin_example : IsWithin whole limits.max_rows (new_batch_sizer limits.batch_size).cap (
    rounds 4
      (column_turn whole small_device limits)
      (column_start whole small_device limits (two ∷ []) (new_value_store whole) new_report 0))
unfolding Dict.lookup with_defaults
walk-IsWithin_example =
    walk-IsWithin small_device limits 4 (two ∷ []) (new_value_store whole) new_report 0
      (omega arith) (λ column rows e. cc)
