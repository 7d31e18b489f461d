-- ===== src/Snmp/Fetch/Scalars.antt =====
-- internal/snmp/fetch.go: `fetchScalars`. One turn of its loop is `scalar_turn`.
pub mod Round
pub mod Total
use networkdevicereceiver.Base.{
  ℕ, suc, ◌+◌, ◌-◌, ◌*◌, Bool, true, false, ◌&&◌, Option, none, some, List, [], ◌∷◌, ◌++◌, leb,
  if◌then◌else◌, length, take, drop, get_or, min, Str, Floats, Turn, again, leave, run,
}
use networkdevicereceiver.Base.Dict
use networkdevicereceiver.Snmp.Oid.{canonical_oid, prefixed}
use networkdevicereceiver.Snmp.Batch.{BatchSizer, new_batch_sizer, shrink, success}
use networkdevicereceiver.Snmp.Value.{
  Asn1, Pdu, ResultValue, ValueStore, decode_pdu, no_such_object,
}
use networkdevicereceiver.Snmp.Fetch.Session.{
  SnmpError, no_error, too_big, no_such_name, other_error, Packet, Reply, failed, answered, Session,
  FetchReport, FetchError, cancelled, get_failed, single_too_big, get_bad_index, get_status,
}

abbrev is_no_such_object : Asn1 → Bool
is_no_such_object no_such_object = true
is_no_such_object _ = false

-- The most turns that the loop takes for so many OIDs and such a batch size.
abbrev pub scalar_fuel : ℕ → List Str → ℕ
scalar_fuel size oids = (length oids + 1) * (size + 2)

module _ (fl : Floats) where
  pub record ScalarLoop (W : Type 0) : Type 0 where
    pub batch : BatchSizer
    pub remaining : List Str
    pub errs : List FetchError
    pub store : ValueStore fl
    pub report : FetchReport
    pub world : W

  abbrev pub add_missing : Str → FetchReport → FetchReport
  add_missing oid r = record r { missing_oids = r.missing_oids ++ oid ∷ [] }

  -- The values of one packet, in order.
  pub keep_value :
      Pdu fl → Option (ResultValue fl) → ValueStore fl × FetchReport → ValueStore fl × FetchReport
  keep_value pdu none (store, report) = (
    store,
    if is_no_such_object pdu.tag then add_missing (canonical_oid pdu.name) report else report,
  )
  keep_value pdu (some v) (store, report) =
      (record store { scalars = Dict.insert (canonical_oid pdu.name) v store.scalars }, report)

  unfoldable pub keep_values :
      List (Pdu fl) → ValueStore fl × FetchReport → ValueStore fl × FetchReport
  unfolding keep_value
  keep_values [] s = s
  keep_values (pdu ∷ pdus) s = keep_values pdus (keep_value pdu (decode_pdu fl pdu) s)

  module _ {W : Type 0} where
    -- errs = append(errs, e); remaining = remaining[size:]
    abbrev pub give_up : FetchError → ℕ → ScalarLoop W → Turn (ScalarLoop W)
    give_up e size s =
        again (record s { errs = s.errs ++ e ∷ []; remaining = drop size s.remaining })

    abbrev pub drop_missing : ℕ → Str → ScalarLoop W → Turn (ScalarLoop W)
    drop_missing idx bad s = again (record s {
      report = add_missing bad s.report;
      remaining = take (idx - 1) s.remaining ++ drop idx s.remaining;
    })

    -- SNMPv1's noSuchName at a 1-based index into the chunk
    pub no_such : ℕ → List Str → ScalarLoop W → Turn (ScalarLoop W)
    no_such idx chunk s =
        if leb 1 idx && leb idx (length chunk)
        then drop_missing idx (get_or chunk (idx - 1) []) s
        else give_up (get_bad_index idx) (length chunk) s

    -- `shrink` and go round again, or else give the chunk up.
    pub shrink_or : FetchError → ℕ → ScalarLoop W → Turn (ScalarLoop W)
    shrink_or e size s =
        let (b, shrunk) = shrink s.batch in
        if shrunk then again (record s { batch = b }) else give_up e size (record s { batch = b })

    pub on_status : SnmpError → Packet fl → List Str → ScalarLoop W → Turn (ScalarLoop W)
    unfolding no_such shrink_or
    on_status too_big p chunk s = shrink_or single_too_big (length chunk) s
    on_status no_such_name p chunk s = no_such p.error_index chunk s
    on_status (other_error n) p chunk s = give_up (get_status (other_error n)) (length chunk) s
    on_status no_error p chunk s =
        let (store, report) = keep_values p.variables (s.store, s.report) in
        again (record s {
          store = store;
          report = report;
          batch = success s.batch;
          remaining = drop (length chunk) s.remaining;
        })

    pub on_get : List Str → Reply fl → ScalarLoop W → Turn (ScalarLoop W)
    unfolding on_status shrink_or
    on_get chunk (failed e) s = shrink_or (get_failed (length chunk) e) (length chunk) s
    on_get chunk (answered p) s = on_status p.status p chunk s

    abbrev pub count_pdu : ScalarLoop W → ScalarLoop W
    count_pdu s = record s { report = record s.report { pdus = s.report.pdus + 1 } }

    abbrev pub chunk_of : ScalarLoop W → List Str
    chunk_of s = take (min s.batch.current (length s.remaining)) s.remaining

    pub after_check : Session fl W → ScalarLoop W → Option Str × W → Turn (ScalarLoop W)
    unfolding on_get
    after_check sess s (some e, w) =
        leave (record s { errs = s.errs ++ cancelled e ∷ []; world = w })
    after_check sess s (none, w) =
        let chunk = chunk_of s in
        let (reply, w') = sess.get (prefixed chunk) w in
        on_get chunk reply (count_pdu (record s { world = w' }))

    -- for len(remaining) > 0
    pub on_remaining : Session fl W → ScalarLoop W → List Str → Turn (ScalarLoop W)
    on_remaining sess s [] = leave s
    on_remaining sess s (oid ∷ oids) = after_check sess s (sess.ctx_err s.world)

    unfoldable pub scalar_turn : Session fl W → ScalarLoop W → Turn (ScalarLoop W)
    unfolding on_remaining
    scalar_turn sess s = on_remaining sess s s.remaining

    abbrev pub scalar_start : ℕ → List Str → ValueStore fl → FetchReport → W → ScalarLoop W
    scalar_start size oids store report w = record {
      batch = new_batch_sizer size;
      remaining = oids;
      errs = [];
      store = store;
      report = report;
      world = w;
    }

    unfoldable pub fetch_scalars :
        Session fl W → ℕ → List Str → ValueStore fl → FetchReport → W → Option (ScalarLoop W)
    unfolding run scalar_turn
    fetch_scalars sess size oids store report w =
        run (scalar_fuel size oids) (scalar_turn sess) (scalar_start size oids store report w)
