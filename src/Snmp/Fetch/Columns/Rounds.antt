-- ===== src/Snmp/Fetch/Columns/Rounds.antt =====
-- internal/snmp/fetch.go: what every round of a walk keeps, whatever the device answers.
use networkdevicereceiver.Base.{
  ◌≤◌, ℕ, zero, suc, ◌+◌, ◌≡◌, refl, ap, ◌∙◌, Bool-cases, inl, inr, ◌&&◌, Option, none, some, List,
  [], ◌∷◌, arith, leb, length, Str, str_eq, Floats, Turn, again, leave,
}
use networkdevicereceiver.Base.Dict
use networkdevicereceiver.Base.Dict.{Dict, lookup-insert}
use networkdevicereceiver.Snmp.Oid.{canonical_oid}
use networkdevicereceiver.Snmp.Batch.{
  new_batch_sizer, shrink, reset, IsSized, new_batch_sizer-IsSized, shrink-IsSized, success-IsSized,
  reset-IsSized, cap-shrink, cap-success,
}
use networkdevicereceiver.Snmp.Value.{ValueStore}
use networkdevicereceiver.Snmp.Fetch.Session.{
  SnmpError, Packet, Reply, failed, answered, Session, Limits, FetchReport, FetchError, no_error,
  too_big, no_such_name, other_error,
}
use networkdevicereceiver.Snmp.Fetch.Consume.Rows.{IsCapped, consume-IsCapped}
use networkdevicereceiver.Snmp.Fetch.Columns.{
  ColumnLoop, start_columns, fall_back, end_named, take_rows, on_walk_status, on_walk, column_chunk,
  send_walk, after_walk_check, on_next, column_turn, column_start,
}

-- The state after a turn, and after so many, or fewer if the loop is left.
abbrev pub state_of {ℓ} : {S : Type ℓ} → Turn S → S
state_of (again s) = s
state_of (leave s) = s

pub rounds {ℓ} : {S : Type ℓ} → ℕ → (S → Turn S) → S → S
rounds zero turn s = s
rounds (suc n) turn s = elim (turn s) [ again s' ↦ rounds n turn s' | leave s' ↦ s' ]

module _ {ℓ} {S : Type ℓ} (P : S → Type 0) (turn : S → Turn S)
    (keeps : (s : S) → P s → P (state_of (turn s))) where
  rounds-keep : (n : ℕ) (s : S) → P s → P (rounds n turn s)
  unfolding rounds
  rounds-keep zero s p = p
  rounds-keep (suc n) s p = go (rounds-keep n) (turn s) (keeps s p)
    where
      go :
          ((s' : S) → P s' → P (rounds n turn s'))
          → (t : Turn S) → P (state_of t)
          → P (elim t [ again s' ↦ rounds n turn s' | leave s' ↦ s' ])
      go rest (again s') q = rest s' q
      go rest (leave s') q = q

module _ (fl : Floats) {W : Type 0} (max_rows cap : ℕ) where
  -- No column is longer than `max_rows`, and the batch is sized, with `cap` as its largest size.
  pub record IsWithin (s : ColumnLoop fl W) : Type 0 where
    pub rows : IsCapped fl max_rows s.store.columns
    pub sized : IsSized s.batch
    pub top : s.batch.cap ≡ cap

  fall_back-IsWithin :
      (e : FetchError) (s : ColumnLoop fl W) → IsWithin s → IsWithin (state_of (fall_back fl e s))
  unfolding fall_back
  fall_back-IsWithin e s h =
      let sized = shrink-IsSized s.batch h.sized in
      let top = cap-shrink s.batch ∙ h.top in
      elim (Bool-cases (shrink s.batch).1) [
        | inl b ↦ rw b (record { rows = h.rows; sized = sized; top = top })
        | inr b ↦ elim (Bool-cases s.use_bulk) [
          | inl u ↦
              rw (b, u)
                (record { rows = h.rows; sized = reset-IsSized _ sized; top = unfold reset in top })
          | inr u ↦ rw (b, u) (record { rows = h.rows; sized = sized; top = top })
        ]
      ]

  end_named-IsWithin :
      (idx : ℕ) (chunk : List Str) (s : ColumnLoop fl W)
      → IsWithin s
      → IsWithin (state_of (end_named fl idx chunk s))
  unfolding end_named
  end_named-IsWithin idx chunk s h = elim (Bool-cases (leb 1 idx && leb idx (length chunk))) [
    | inl b ↦ rw b (record { rows = h.rows; sized = h.sized; top = h.top })
    | inr b ↦ rw b (record { rows = h.rows; sized = h.sized; top = h.top })
  ]

  take_rows-IsWithin :
      (p : Packet fl) (chunk : List Str) (s : ColumnLoop fl W)
      → IsWithin s
      → IsWithin (state_of (take_rows fl max_rows p chunk s))
  unfolding take_rows
  take_rows-IsWithin p chunk s h = record {
    rows = consume-IsCapped fl max_rows p.variables chunk s.next s.store s.report h.rows;
    sized = success-IsSized s.batch h.sized;
    top = cap-success s.batch ∙ h.top;
  }

  on_walk-IsWithin :
      (chunk : List Str) (r : Reply fl) (s : ColumnLoop fl W)
      → IsWithin s
      → IsWithin (state_of (on_walk fl max_rows chunk r s))
  unfolding on_walk
  on_walk-IsWithin chunk (failed e) s h = fall_back-IsWithin _ s h
  on_walk-IsWithin chunk (answered p) s h = by_status p.status
    where
      by_status : (st : SnmpError) → IsWithin (state_of (on_walk_status fl max_rows st p chunk s))
      by_status too_big = unfold on_walk_status in fall_back-IsWithin _ s h
      by_status no_such_name = unfold on_walk_status in end_named-IsWithin p.error_index chunk s h
      by_status no_error = unfold on_walk_status in take_rows-IsWithin p chunk s h
      by_status (other_error n) =
          unfold on_walk_status in record { rows = h.rows; sized = h.sized; top = h.top }

module _ {fl : Floats} {W : Type 0} (sess : Session fl W) (lim : Limits) where
  abbrev top_size : ℕ
  top_size = (new_batch_sizer lim.batch_size).cap

  abbrev IsKept : ColumnLoop fl W → Type 0
  IsKept s = IsWithin fl lim.max_rows top_size s

  check-IsWithin :
      (s : ColumnLoop fl W) (c : Option Str × W)
      → IsKept s
      → IsKept (state_of (after_walk_check fl sess lim s c))
  unfolding after_walk_check
  check-IsWithin s (some e, w) h = record { rows = h.rows; sized = h.sized; top = h.top }
  check-IsWithin s (none, w) h =
      let sent = send_walk fl sess lim s (column_chunk fl s) w in
      on_walk-IsWithin fl lim.max_rows top_size (column_chunk fl s) sent.0
        (record s { world = sent.1; report = record s.report { pdus = s.report.pdus + 1 } })
        (record { rows = h.rows; sized = h.sized; top = h.top })

  turn-IsWithin : (s : ColumnLoop fl W) → IsKept s → IsKept (state_of (column_turn fl sess lim s))
  unfolding column_turn
  turn-IsWithin s h = by_next s.next
    where
      by_next : (m : Dict Str) → IsKept (state_of (on_next fl sess lim s m))
      by_next [] = unfold on_next in h
      by_next (column ∷ columns) = unfold on_next in check-IsWithin s (sess.ctx_err s.world) h

  start-IsCapped :
      (oids : List Str) (next : Dict Str) (store : ValueStore fl)
      → IsCapped fl lim.max_rows store.columns
      → IsCapped fl lim.max_rows (start_columns fl oids (next, store)).1.columns
  unfolding start_columns
  start-IsCapped [] next store h = h
  start-IsCapped (oid ∷ oids) next store h =
      start-IsCapped oids _
        (record store { columns = Dict.insert (canonical_oid oid) [] store.columns })
        (λ column rows e. elim (Bool-cases (str_eq (canonical_oid oid) column)) [
          | inl same ↦
              let q : some [] ≡ some rows =
                rw (lookup-insert (canonical_oid oid) column [] store.columns, same) at e in
              let r : [] ≡ rows = cc q in omega (arith, ap length r)
          | inr other ↦
              h column rows
                (rw (lookup-insert (canonical_oid oid) column [] store.columns, other) at e)
        ])

  -- For a configured batch size of at most 2^62, so that int holds its double: whatever the device answers,
  -- after any number of rounds of a walk over a store in which no column
  -- is past the row limit, none is, and the size of a request is still at least one and at most the
  -- size that the configured batch size gives at the start.
  pub walk-IsWithin :
      (n : ℕ) (oids : List Str) (store : ValueStore fl) (report : FetchReport) (w : W)
      → lim.batch_size ≤ 4611686018427387904
      → IsCapped fl lim.max_rows store.columns
      → IsWithin fl lim.max_rows
          (new_batch_sizer lim.batch_size).cap
          (rounds n (column_turn fl sess lim) (column_start fl sess lim oids store report w))
  unfolding column_start
  walk-IsWithin n oids store report w small h =
      rounds-keep IsKept (column_turn fl sess lim) turn-IsWithin n _ (record {
        rows = start-IsCapped oids [] store h;
        sized = new_batch_sizer-IsSized lim.batch_size;
        top = refl;
      })
