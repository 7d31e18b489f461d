-- ===== src/Snmp/Fetch/Columns.antt =====
-- internal/snmp/fetch.go: `fetchColumns`. One turn of its loop is `column_turn`.
pub mod Rounds
use networkdevicereceiver.Base.{
  ℕ, ◌+◌, ◌-◌, Bool, false, ◌&&◌, Option, none, some, List, [], ◌∷◌, ◌++◌, map, leb, if◌then◌else◌,
  length, take, get_or, min, Str, Floats, Turn, again, leave, run,
}
use networkdevicereceiver.Base.Dict
use networkdevicereceiver.Base.Dict.{Dict}
use networkdevicereceiver.Base.Sort.{sort, str_less}
use networkdevicereceiver.Snmp.Oid.{canonical_oid, prefixed}
use networkdevicereceiver.Snmp.Batch.{BatchSizer, new_batch_sizer, shrink, success, reset}
use networkdevicereceiver.Snmp.Value.{ValueStore}
use networkdevicereceiver.Snmp.Fetch.Session.{
  SnmpError, no_error, too_big, no_such_name, other_error, Packet, Reply, failed, answered, Session,
  Limits, FetchReport, FetchError, cancelled, walk_failed, walk_too_big, walk_bad_index,
  walk_status,
}
use networkdevicereceiver.Snmp.Fetch.Consume.{consume}

module _ (fl : Floats) where
  pub record ColumnLoop (W : Type 0) : Type 0 where
    pub batch : BatchSizer
    pub use_bulk : Bool
    pub next : Dict Str
    pub errs : List FetchError
    pub store : ValueStore fl
    pub report : FetchReport
    pub world : W

  -- The walk starts at each column's root, with an empty column in the store.
  pub start_columns : List Str → Dict Str × ValueStore fl → Dict Str × ValueStore fl
  start_columns [] s = s
  start_columns (oid ∷ oids) (next, store) =
      let c = canonical_oid oid in
      start_columns oids
        (Dict.insert c c next, record store { columns = Dict.insert c [] store.columns })

  abbrev pub position_of : Dict Str → Str → Str
  position_of next column = elim (Dict.lookup column next) [ none ↦ [] | some p ↦ p ]

  pub end_columns : List Str → Dict Str → Dict Str
  end_columns [] next = next
  end_columns (column ∷ chunk) next = end_columns chunk (Dict.erase column next)

  module _ {W : Type 0} where
    abbrev pub fail_walk : FetchError → ColumnLoop W → Turn (ColumnLoop W)
    fail_walk e s = leave (record s { errs = s.errs ++ e ∷ [] })

    -- No answer, or one that is too big: a smaller batch, else GETNEXT for GETBULK, else the error.
    pub fall_back : FetchError → ColumnLoop W → Turn (ColumnLoop W)
    fall_back e s =
        let (b, shrunk) = shrink s.batch in
        if shrunk
        then again (record s { batch = b })
        else if s.use_bulk
        then again (record s { batch = reset b; use_bulk = false })
        else fail_walk e (record s { batch = b })

    -- SNMPv1's noSuchName names the column that ran off the end of the MIB.
    pub end_named : ℕ → List Str → ColumnLoop W → Turn (ColumnLoop W)
    end_named idx chunk s =
        if leb 1 idx && leb idx (length chunk)
        then again (record s { next = Dict.erase (get_or chunk (idx - 1) []) s.next })
        else fail_walk (walk_bad_index idx) s

    pub take_rows : ℕ → Packet fl → List Str → ColumnLoop W → Turn (ColumnLoop W)
    unfolding end_columns
    take_rows max_rows p chunk s =
        let w = consume fl max_rows p.variables chunk s.next s.store s.report in
        again (record s {
          next = if w.progressed then w.next else end_columns chunk w.next;
          store = w.store;
          report = w.report;
          batch = success s.batch;
        })

    pub on_walk_status : ℕ → SnmpError → Packet fl → List Str → ColumnLoop W → Turn (ColumnLoop W)
    unfolding fall_back end_named take_rows
    on_walk_status max_rows too_big p chunk s = fall_back walk_too_big s
    on_walk_status max_rows no_such_name p chunk s = end_named p.error_index chunk s
    on_walk_status max_rows no_error p chunk s = take_rows max_rows p chunk s
    on_walk_status max_rows (other_error n) p chunk s = fail_walk (walk_status (other_error n)) s

    pub on_walk : ℕ → List Str → Reply fl → ColumnLoop W → Turn (ColumnLoop W)
    unfolding on_walk_status fall_back
    on_walk max_rows chunk (failed e) s = fall_back (walk_failed e) s
    on_walk max_rows chunk (answered p) s = on_walk_status max_rows p.status p chunk s

    abbrev pub column_chunk : ColumnLoop W → List Str
    column_chunk s =
        let active = sort str_less (Dict.keys s.next) in
        take (min s.batch.current (length active)) active

    pub send_walk : Session fl W → Limits → ColumnLoop W → List Str → W → Reply fl × W
    send_walk sess lim s chunk w =
        let request = prefixed (map (position_of s.next) chunk) in
        if s.use_bulk then sess.get_bulk request lim.repetitions w else sess.get_next request w

    pub after_walk_check :
        Session fl W → Limits → ColumnLoop W → Option Str × W → Turn (ColumnLoop W)
    unfolding send_walk on_walk
    after_walk_check sess lim s (some e, w) =
        leave (record s { errs = s.errs ++ cancelled e ∷ []; world = w })
    after_walk_check sess lim s (none, w) =
        let chunk = column_chunk s in
        let (reply, w') = send_walk sess lim s chunk w in
        on_walk lim.max_rows chunk reply
          (record s { world = w'; report = record s.report { pdus = s.report.pdus + 1 } })

    -- for len(next) > 0
    pub on_next : Session fl W → Limits → ColumnLoop W → Dict Str → Turn (ColumnLoop W)
    unfolding after_walk_check
    on_next sess lim s [] = leave s
    on_next sess lim s (column ∷ columns) = after_walk_check sess lim s (sess.ctx_err s.world)

    unfoldable pub column_turn : Session fl W → Limits → ColumnLoop W → Turn (ColumnLoop W)
    unfolding on_next
    column_turn sess lim s = on_next sess lim s s.next

    unfoldable pub column_start :
        Session fl W → Limits → List Str → ValueStore fl → FetchReport → W → ColumnLoop W
    unfolding start_columns
    column_start sess lim oids store report w =
        let (next, store') = start_columns oids ([], store) in
        record {
          batch = new_batch_sizer lim.batch_size;
          use_bulk = sess.supports_get_bulk;
          next = next;
          errs = [];
          store = store';
          report = report;
          world = w;
        }

    -- `none` means that the fuel ran out.
    unfoldable pub fetch_columns :
        ℕ
        → Session fl W
        → Limits
        → List Str
        → ValueStore fl
        → FetchReport
        → W
        → Option (ColumnLoop W)
    unfolding run column_turn column_start
    fetch_columns fuel sess lim oids store report w =
        run fuel (column_turn sess lim) (column_start sess lim oids store report w)
