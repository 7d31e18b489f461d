-- ===== src/Snmp/Fetch/Consume.antt =====
-- internal/snmp/fetch.go: `consume`, which applies one response to the positions of a walk.
pub mod Rows
pub mod Forward
use networkdevicereceiver.Base.{
  ℕ, Bool, true, false, not, ◌&&◌, Option, none, some, List, [], ◌∷◌, ◌++◌, leb, if◌then◌else◌,
  length, Str, str_eq, Floats,
}
use networkdevicereceiver.Base.Dict
use networkdevicereceiver.Base.Dict.{Dict}
use networkdevicereceiver.Snmp.Oid.{canonical_oid, compare_oids, is_gt, longest_match}
use networkdevicereceiver.Snmp.Value.{Pdu, ResultValue, ValueStore, decode_pdu}
use networkdevicereceiver.Snmp.Fetch.Session.{FetchReport}

-- What `consume` changes: the positions, the store and the report of the caller, and its own
-- `progressed` and `answered`.
pub record Walk (fl : Floats) : Type 0 where
  pub next : Dict Str
  pub store : ValueStore fl
  pub report : FetchReport
  pub progressed : Bool
  pub answered : List Str

unfoldable pub contains : Str → List Str → Bool
contains s [] = false
contains s (t ∷ ts) = if str_eq t s then true else contains s ts

-- Columns of the chunk that the response did not mention have ended.
unfoldable pub end_unanswered : List Str → List Str → Dict Str → Dict Str
end_unanswered [] answered next = next
end_unanswered (column ∷ chunk) answered next =
    end_unanswered chunk answered
      (if contains column answered then next else Dict.erase column next)

module _ (fl : Floats) (max_rows : ℕ) where
  abbrev pub rows_of : Option (Dict (ResultValue fl)) → Dict (ResultValue fl)
  rows_of none = []
  rows_of (some rows) = rows

  abbrev pub moved : Str → Str → Walk fl → Walk fl
  moved column oid w = record w { next = Dict.insert column oid w.next; progressed = true }

  -- A decoded value: the row is kept, unless the column is full.
  pub put_row : Str → Str → Str → ResultValue fl → Walk fl → Walk fl
  put_row column index oid v w =
      let rows = rows_of (Dict.lookup column w.store.columns) in
      if leb max_rows (length rows)
      then record w {
        report = record w.report { truncated_columns = w.report.truncated_columns ++ column ∷ [] };
        next = Dict.erase column w.next;
      }
      else moved column oid (record w {
        store = record w.store {
          columns = Dict.insert column (Dict.insert index v rows) w.store.columns;
        };
      })

  pub on_value : Str → Str → Str → Option (ResultValue fl) → Walk fl → Walk fl
  unfolding put_row
  on_value column index oid none w = moved column oid w
  on_value column index oid (some v) w = put_row column index oid v w

  -- A column that ended earlier in the packet is not walked again; one that is walked must move
  -- strictly forward, but for its first step.
  pub on_position : Str → Str → Str → Pdu fl → Option Str → Walk fl → Walk fl
  unfolding on_value
  on_position column index oid pdu none w = w
  on_position column index oid pdu (some position) w =
      let w' = record w { answered = column ∷ w.answered } in
      if not (str_eq position column) && not (is_gt (compare_oids oid position))
      then w'
      else on_value column index oid (decode_pdu fl pdu) w'

  pub on_match : Str → Pdu fl → Option (Str × Str) → Walk fl → Walk fl
  unfolding on_position
  on_match oid pdu none w = w
  on_match oid pdu (some (column, index)) w =
      on_position column index oid pdu (Dict.lookup column w.next) w

  pub consume_pdus : List Str → List (Pdu fl) → Walk fl → Walk fl
  unfolding on_match
  consume_pdus chunk [] w = w
  consume_pdus chunk (pdu ∷ pdus) w =
      let oid = canonical_oid pdu.name in
      consume_pdus chunk pdus (on_match oid pdu (longest_match chunk oid) w)

  unfoldable pub consume :
      List (Pdu fl) → List Str → Dict Str → ValueStore fl → FetchReport → Walk fl
  unfolding consume_pdus end_unanswered
  consume variables chunk next store report =
      let w = consume_pdus chunk variables (record {
        next = next;
        store = store;
        report = report;
        progressed = false;
        answered = [];
      }) in
      record w { next = end_unanswered chunk w.answered w.next }
