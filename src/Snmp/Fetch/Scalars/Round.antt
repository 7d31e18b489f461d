-- ===== src/Snmp/Fetch/Scalars/Round.antt =====
-- internal/snmp/fetch.go: one turn of the loop of `fetchScalars`, branch by branch.
use networkdevicereceiver.Base.{
  ℕ, ◌+◌, ◌-◌, ◌*◌, ◌≤◌, ◌<◌, ◌≡◌, refl, subst, ◌∙◌, ◌⊎◌, inl, inr, Bool-cases, Option, none, some,
  List, [], ◌∷◌, ◌++◌, arith, length, take, drop, length-append, length-take, length-drop, Any, Str,
  get_or, ◌&&◌, leb, Floats, Turn, Turns,
}
use networkdevicereceiver.Snmp.Batch.{
  IsSized, shrink, shrink-IsSized, shrink_progress, cap-shrink, success, success-IsSized,
  cap-success,
}
use networkdevicereceiver.Snmp.Value.{Pdu, ValueStore, ResultValue, decode_pdu}
use networkdevicereceiver.Snmp.Fetch.Session.{
  FetchError, FetchReport, cancelled, Reply, failed, answered, Packet, SnmpError, no_error, too_big,
  no_such_name, other_error, single_too_big, get_failed, get_bad_index, get_status,
}
use networkdevicereceiver.Snmp.Fetch.Scalars.{
  ScalarLoop, give_up, drop_missing, keep_value, keep_values, no_such, shrink_or, on_status, on_get,
}

fewer_sum :
    (r k c cur next : ℕ) → 1 ≤ k → next ≤ c → 1 ≤ cur → r * (c + 1) + next < (k + r) * (c + 1) + cur
fewer_sum r k c cur next hk hn hc = let m : 1 * (c + 1) ≤ k * (c + 1) = grind arith in omega arith

-- One OID less outweighs any growth of the batch.
fewer_oids :
    (l k c cur next : ℕ)
    → 1 ≤ k
    → k ≤ l
    → next ≤ c
    → 1 ≤ cur
    → (l - k) * (c + 1) + next < l * (c + 1) + cur
fewer_oids l k c cur next hk hl hn hc =
    let e : k + (l - k) ≡ l = omega arith in
    subst (λ t. (l - k) * (c + 1) + next < t * (c + 1) + cur) e
      (fewer_sum (l - k) k c cur next hk hn hc)

module _ (fl : Floats) where
  pdus-keep_values :
      (ps : List (Pdu fl)) (s : ValueStore fl × FetchReport)
      → (keep_values fl ps s).1.pdus ≡ s.1.pdus
  unfolding keep_values
  pdus-keep_values [] s = refl
  pdus-keep_values (p ∷ ps) s =
      pdus-keep_values ps (keep_value fl p (decode_pdu fl p) s) ∙ one (decode_pdu fl p)
    where
      one : (d : Option (ResultValue fl)) → (keep_value fl p d s).1.pdus ≡ s.1.pdus
      one none = ground arith
      one (some v) = refl

module _ (fl : Floats) {W : Type 0} where
  -- How many turns are left at most, for batches of at most `c`.
  abbrev pub weight : ℕ → ScalarLoop fl W → ℕ
  weight c s = length s.remaining * (c + 1) + s.batch.current

  -- Between turns: the batch is well sized, and requests sent and turns left stay within `n`.
  pub record InBudget (c n : ℕ) (s : ScalarLoop fl W) : Type 0 where
    pub sized : IsSized s.batch
    pub capped : s.batch.cap ≡ c
    pub budget : s.report.pdus + weight c s ≤ n

  -- At the end nothing remains, or the context was cancelled; and the requests are bounded.
  pub record IsDone (n : ℕ) (s : ScalarLoop fl W) : Type 0 where
    pub finished : (s.remaining ≡ []) ⊎ Any (λ e. (m : Str) × (e ≡ cancelled m)) s.errs
    pub requests : s.report.pdus ≤ n

  abbrev pub Goes : ℕ → ℕ → ScalarLoop fl W → Turn (ScalarLoop fl W) → Type 0
  Goes c n s = Turns (InBudget c n) (IsDone n) (weight c) (weight c s)

  -- Within a turn the request is counted, so the budget is one over.
  pub record IsReady (c n : ℕ) (s : ScalarLoop fl W) : Type 0 where
    pub sized : IsSized s.batch
    pub capped : s.batch.cap ≡ c
    pub budget : s.report.pdus + weight c s ≤ n + 1

  give_up-Goes :
      (c n : ℕ) (e : FetchError) (k : ℕ) (s : ScalarLoop fl W)
      → IsReady c n s
      → 1 ≤ k
      → k ≤ length s.remaining
      → Goes c n s (give_up fl e k s)
  give_up-Goes c n e k s h hk hl =
      let less =
        fewer_oids (length s.remaining) k c s.batch.current s.batch.current hk hl (omega arith)
          (omega arith) in
      let down : length (drop k s.remaining) * (c + 1) + s.batch.current < weight c s =
        rw (length-drop k s.remaining) less in
      (record { sized = h.sized; capped = h.capped; budget = omega arith }, down)

  shrink_or-Goes :
      (c n : ℕ) (e : FetchError) (k : ℕ) (s : ScalarLoop fl W)
      → IsReady c n s
      → 1 ≤ k
      → k ≤ length s.remaining
      → Goes c n s (shrink_or fl e k s)
  unfolding shrink_or
  shrink_or-Goes c n e k s h hk hl = elim (Bool-cases (shrink s.batch).1) [
    | inl granted ↦
        let less = (shrink_progress s.batch h.sized).0 granted in
        rw granted (
          record {
            sized = shrink-IsSized s.batch h.sized;
            capped = cap-shrink s.batch ∙ h.capped;
            budget = omega arith;
          },
          omega arith,
        )
    | inr refused ↦
        rw (refused, ((shrink_progress s.batch h.sized).1 refused).1)
          (give_up-Goes c n e k s h hk hl)
  ]

  no_such-Goes :
      (c n idx : ℕ) (chunk : List Str) (s : ScalarLoop fl W)
      → IsReady c n s
      → 1 ≤ length chunk
      → length chunk ≤ length s.remaining
      → Goes c n s (no_such fl idx chunk s)
  unfolding no_such
  no_such-Goes c n idx chunk s h hk hl = elim (Bool-cases (leb 1 idx && leb idx (length chunk))) [
    | inl usable ↦ rw usable (dropped (ground arith) (ground arith))
    | inr unusable ↦ rw unusable (give_up-Goes c n (get_bad_index idx) (length chunk) s h hk hl)
  ]
    where
      rest : List Str
      rest = take (idx - 1) s.remaining ++ drop idx s.remaining

      one_less : 1 ≤ idx → idx ≤ length chunk → length rest ≡ length s.remaining - 1
      one_less a b = omega (
        arith,
        length-append (take (idx - 1) s.remaining) (drop idx s.remaining),
        length-take (idx - 1) s.remaining,
        length-drop idx s.remaining,
      )

      dropped :
          1 ≤ idx
          → idx ≤ length chunk
          → Goes c n s (drop_missing fl idx (get_or chunk (idx - 1) []) s)
      dropped a b =
          let less =
            fewer_oids (length s.remaining) 1 c s.batch.current s.batch.current (omega arith)
              (omega arith) (omega arith) (omega arith) in
          let down : length rest * (c + 1) + s.batch.current < weight c s =
            rw (one_less a b) less in
          (record { sized = h.sized; capped = h.capped; budget = omega arith }, down)

  -- A good answer ends the chunk, and may let the batch grow.
  taken-Goes :
      (c n : ℕ) (p : Packet fl) (chunk : List Str) (s : ScalarLoop fl W)
      → IsReady c n s
      → 1 ≤ length chunk
      → length chunk ≤ length s.remaining
      → Goes c n s (on_status fl no_error p chunk s)
  unfolding on_status
  taken-Goes c n p chunk s h hk hl =
      let b = success s.batch in
      let sized = success-IsSized s.batch h.sized in
      let capped : b.cap ≡ c = cap-success s.batch ∙ h.capped in
      let less =
        fewer_oids (length s.remaining) (length chunk) c s.batch.current b.current hk hl
          (omega (arith, sized.within)) (omega arith) in
      let down : length (drop (length chunk) s.remaining) * (c + 1) + b.current < weight c s =
        rw (length-drop (length chunk) s.remaining) less in
      (
        record {
          sized = sized;
          capped = capped;
          budget = omega (arith, pdus-keep_values fl p.variables (s.store, s.report));
        },
        down,
      )

  on_status-Goes :
      (c n : ℕ) (status : SnmpError) (p : Packet fl) (chunk : List Str) (s : ScalarLoop fl W)
      → IsReady c n s
      → 1 ≤ length chunk
      → length chunk ≤ length s.remaining
      → Goes c n s (on_status fl status p chunk s)
  on_status-Goes c n no_error p chunk s h hk hl = taken-Goes c n p chunk s h hk hl
  on_status-Goes c n too_big p chunk s h hk hl =
      unfold on_status in shrink_or-Goes c n single_too_big (length chunk) s h hk hl
  on_status-Goes c n no_such_name p chunk s h hk hl =
      unfold on_status in no_such-Goes c n p.error_index chunk s h hk hl
  on_status-Goes c n (other_error e) p chunk s h hk hl =
      unfold on_status in give_up-Goes c n (get_status (other_error e)) (length chunk) s h hk hl

  pub on_get-Goes :
      (c n : ℕ) (chunk : List Str) (r : Reply fl) (s : ScalarLoop fl W)
      → IsReady c n s
      → 1 ≤ length chunk
      → length chunk ≤ length s.remaining
      → Goes c n s (on_get fl chunk r s)
  unfolding on_get
  on_get-Goes c n chunk (failed e) s h hk hl =
      shrink_or-Goes c n (get_failed (length chunk) e) (length chunk) s h hk hl
  on_get-Goes c n chunk (answered p) s h hk hl = on_status-Goes c n p.status p chunk s h hk hl
