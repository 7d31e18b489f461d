-- ===== src/Snmp/Fetch/Consume/Rows.antt =====
-- internal/snmp/fetch.go: the number of rows of a column through `consume`.
use networkdevicereceiver.Base.{
  ℕ, ◌≤◌, ◌≡◌, inl, inr, Bool-cases, false, not, ◌&&◌, Option, none, some, List, [], ◌∷◌, arith,
  leb, length, Str, str_eq, Floats,
}
use networkdevicereceiver.Base.Dict
use networkdevicereceiver.Base.Dict.{Dict, lookup-insert, lookup-erase, length-insert}
use networkdevicereceiver.Snmp.Oid.{canonical_oid, compare_oids, is_gt, longest_match}
use networkdevicereceiver.Snmp.Value.{Pdu, ResultValue, ValueStore, decode_pdu}
use networkdevicereceiver.Snmp.Fetch.Session.{FetchReport}
use networkdevicereceiver.Snmp.Fetch.Consume.{
  Walk, rows_of, put_row, on_value, on_position, on_match, consume_pdus, consume,
}

module _ (fl : Floats) (max_rows : ℕ) where
  abbrev pub IsCapped : Dict (Dict (ResultValue fl)) → Type 0
  IsCapped columns =
      (column : Str) (rows : Dict (ResultValue fl))
      → Dict.lookup column columns ≡ some rows
      → length rows ≤ max_rows

  written :
      (column c index : Str) (v : ResultValue fl) (rows : Dict (ResultValue fl))
      (columns : Dict (Dict (ResultValue fl)))
      → IsCapped columns
      → leb max_rows (length (rows_of fl max_rows (Dict.lookup column columns))) ≡ false
      → Dict.lookup c (
          Dict.insert column
            (Dict.insert index v (rows_of fl max_rows (Dict.lookup column columns)))
            columns)
        ≡ some rows
      → length rows ≤ max_rows
  written column c index v rows columns h room e =
      let old = rows_of fl max_rows (Dict.lookup column columns) in
      ground (
        arith,
        length-insert index v old,
        h c rows,
        lookup-insert column c (Dict.insert index v old) columns,
      )

  put_row-IsCapped :
      (column index oid : Str) (v : ResultValue fl) (w : Walk fl)
      → IsCapped w.store.columns
      → IsCapped (put_row fl max_rows column index oid v w).store.columns
  unfolding put_row
  put_row-IsCapped column index oid v w h c rows =
      let old = rows_of fl max_rows (Dict.lookup column w.store.columns) in
      elim (Bool-cases (leb max_rows (length old))) [
        | inl full ↦ rw full (h c rows)
        | inr room ↦ rw room (written column c index v rows w.store.columns h room)
      ]

  on_value-IsCapped :
      (column index oid : Str) (d : Option (ResultValue fl)) (w : Walk fl)
      → IsCapped w.store.columns
      → IsCapped (on_value fl max_rows column index oid d w).store.columns
  unfolding on_value
  on_value-IsCapped column index oid none w h = h
  on_value-IsCapped column index oid (some v) w h = put_row-IsCapped column index oid v w h

  on_match-IsCapped :
      (oid : Str) (pdu : Pdu fl) (m : Option (Str × Str)) (w : Walk fl)
      → IsCapped w.store.columns
      → IsCapped (on_match fl max_rows oid pdu m w).store.columns
  on_match-IsCapped oid pdu none w h = unfold on_match in h
  on_match-IsCapped oid pdu (some (column, index)) w h =
      unfold on_match in at_position (Dict.lookup column w.next)
    where
      at_position :
          (p : Option Str)
          → IsCapped (on_position fl max_rows column index oid pdu p w).store.columns
      at_position none = unfold on_position in h
      at_position (some position) =
          unfold on_position in
          elim (Bool-cases
            (not (str_eq position column) && not (is_gt (compare_oids oid position)))) [
              | inl stuck ↦ rw stuck h
              | inr ahead ↦ rw ahead (on_value-IsCapped column index oid (decode_pdu fl pdu) _ h)
            ]

  pub consume_pdus-IsCapped :
      (chunk : List Str) (pdus : List (Pdu fl)) (w : Walk fl)
      → IsCapped w.store.columns
      → IsCapped (consume_pdus fl max_rows chunk pdus w).store.columns
  unfolding consume_pdus
  consume_pdus-IsCapped chunk [] w h = h
  consume_pdus-IsCapped chunk (pdu ∷ pdus) w h =
      let oid = canonical_oid pdu.name in
      consume_pdus-IsCapped chunk pdus (on_match fl max_rows oid pdu (longest_match chunk oid) w)
        (on_match-IsCapped oid pdu (longest_match chunk oid) w h)

  -- If no column is past `max_rows`, then no response, however large, takes one past it.
  pub consume-IsCapped :
      (variables : List (Pdu fl)) (chunk : List Str) (next : Dict Str) (store : ValueStore fl)
      (report : FetchReport)
      → IsCapped store.columns
      → IsCapped (consume fl max_rows variables chunk next store report).store.columns
  unfolding consume
  consume-IsCapped variables chunk next store report h = consume_pdus-IsCapped chunk variables _ h
