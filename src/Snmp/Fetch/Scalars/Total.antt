-- ===== src/Snmp/Fetch/Scalars/Total.antt =====
-- internal/snmp/fetch.go: the loop of `fetchScalars` from start to end.
use native.Mathlib.Nat.{mul-le-mul_left}
use networkdevicereceiver.Base.{
  ℕ, ◌+◌, ◌*◌, ◌≤◌, ◌<◌, ◌≡◌, refl, ap, inl, inr, Option, none, some, List, [], ◌∷◌, ◌++◌, arith,
  length, length-take, Any, min, Str, Floats, run_total,
}
use networkdevicereceiver.Snmp.Batch.{new_batch_sizer, new_batch_sizer-IsSized}
use networkdevicereceiver.Snmp.Oid.{prefixed}
use networkdevicereceiver.Snmp.Value.{ValueStore}
use networkdevicereceiver.Snmp.Fetch.Session.{Session, FetchReport, cancelled}
use networkdevicereceiver.Snmp.Fetch.Scalars.{
  ScalarLoop, count_pdu, chunk_of, after_check, on_remaining, scalar_turn, scalar_start,
  scalar_fuel, fetch_scalars,
}
use networkdevicereceiver.Snmp.Fetch.Scalars.Round.{weight, InBudget, IsDone, Goes, on_get-Goes}

Any-append {ℓ} : {A : Type ℓ} (P : A → Type 0) (xs : List A) (x : A) → P x → Any P (xs ++ x ∷ [])
Any-append P [] x h = inl h
Any-append P (y ∷ xs) x h = inr (Any-append P xs x h)

room_for : (l size c cur : ℕ) → c ≤ size + 1 → cur ≤ c → l * (c + 1) + cur < (l + 1) * (size + 2)
room_for l size c cur h k =
    let m : l * (c + 1) ≤ l * (size + 2) = mul-le-mul_left l (omega arith) in omega arith

new_batch_sizer-cap : (n : ℕ) → (new_batch_sizer n).cap ≤ n + 1
unfolding new_batch_sizer
new_batch_sizer-cap n = ground arith

module _ (fl : Floats) {W : Type 0} (sess : Session fl W) where
  after_check-Goes :
      (c n : ℕ) (s : ScalarLoop fl W) (r : Option Str × W)
      → InBudget fl c n s
      → 1 ≤ length s.remaining
      → Goes fl c n s (after_check fl sess s r)
  unfolding after_check
  after_check-Goes c n s (some e, w) h some_left = record {
    finished = inr (Any-append _ s.errs (cancelled e) (e, refl));
    requests = omega (arith, h.budget);
  }
  after_check-Goes c n s (none, w) h some_left =
      let k : length (chunk_of fl s) ≡ min s.batch.current (length s.remaining) =
        omega (arith, length-take (min s.batch.current (length s.remaining)) s.remaining) in
      on_get-Goes fl c n (chunk_of fl s) (sess.get (prefixed (chunk_of fl s)) w).0
        (count_pdu fl (record s { world = (sess.get (prefixed (chunk_of fl s)) w).1 }))
        (record { sized = h.sized; capped = h.capped; budget = omega (arith, h.budget) })
        (omega (arith, h.sized.room)) (omega arith)

  on_remaining-Goes :
      (c n : ℕ) (s : ScalarLoop fl W) (l : List Str)
      → s.remaining ≡ l
      → InBudget fl c n s
      → Goes fl c n s (on_remaining fl sess s l)
  unfolding on_remaining
  on_remaining-Goes c n s [] e h = record { finished = inl e; requests = omega (arith, h.budget) }
  on_remaining-Goes c n s (oid ∷ oids) e h =
      after_check-Goes c n s (sess.ctx_err s.world) h (omega (arith, ap length e))

  scalar_turn-Goes :
      (c n : ℕ) (s : ScalarLoop fl W) → InBudget fl c n s → Goes fl c n s (scalar_turn fl sess s)
  scalar_turn-Goes c n s h = unfold scalar_turn in on_remaining-Goes c n s s.remaining refl h

  -- For every device, transport and context, every batch size and every list of OIDs, the loop ends;
  -- then no OID is left to ask for, unless the context was cancelled, and the requests that it sent
  -- are at most (number of OIDs + 1) * (batch size + 2) more than before.
  pub fetch_scalars_total :
      (size : ℕ) (oids : List Str) (store : ValueStore fl) (report : FetchReport) (w : W)
      → (s : ScalarLoop fl W) × (fetch_scalars fl sess size oids store report w ≡ some s)
        × IsDone fl (report.pdus + scalar_fuel size oids) s
  unfolding fetch_scalars
  fetch_scalars_total size oids store report w =
      let start = scalar_start fl size oids store report w in
      let c = start.batch.cap in
      let total = report.pdus + scalar_fuel size oids in
      let sized = new_batch_sizer-IsSized size in
      let small = new_batch_sizer-cap size in
      let fits : weight fl c start < scalar_fuel size oids =
        room_for (length oids) size c start.batch.current small sized.within in
      run_total (InBudget fl c total) (IsDone fl total) (weight fl c) (scalar_turn fl sess)
        (scalar_turn-Goes c total) (scalar_fuel size oids) start fits
        (record { sized = sized; capped = refl; budget = omega arith })
