-- ===== src/Snmp/Fetch/Consume/Forward.antt =====
-- internal/snmp/fetch.go: the positions of a walk through `consume`.
use networkdevicereceiver.Base.{
  ℕ, ◌≡◌, refl, subst, ◌⊎◌, inl, inr, Bool-cases, false, not, ◌&&◌, Option, none, some, List, [],
  ◌∷◌, arith, leb, length, Str, str_eq, str_eq_iff, Floats, Ordering,
}
use networkdevicereceiver.Base.Dict
use networkdevicereceiver.Base.Dict.{Dict, lookup-insert, lookup-erase}
use networkdevicereceiver.Snmp.Oid.{canonical_oid, compare_oids, is_gt, longest_match, row_index}
use networkdevicereceiver.Snmp.Oid.Rows.{longest_match_found}
use networkdevicereceiver.Snmp.Value.{Pdu, ResultValue, ValueStore, decode_pdu}
use networkdevicereceiver.Snmp.Fetch.Session.{FetchReport}
use networkdevicereceiver.Snmp.Fetch.Consume.{
  Walk, rows_of, put_row, on_value, on_position, on_match, consume_pdus, consume, contains,
  end_unanswered,
}

-- A walk's steps in one column: to an OID in the column's subtree that is later than the position,
-- or to any such OID from the column's root.
pub data Moves (column : Str) (from : Str) : Str → Type 0 where
  stay : Moves column from from
  step :
      {p q : Str} (idx : Str)
      → Moves column from p
      → (p ≡ column) ⊎ (compare_oids q p ≡ Ordering.gt)
      → row_index column q ≡ some idx
      → Moves column from q

Moves-trans : (c a b : Str) {d : Str} → Moves c a b → Moves c b d → Moves c a d
Moves-trans c a b m stay = m
Moves-trans c a b m (step idx n later below) = step idx (Moves-trans c a b m n) later below

-- Every position afterwards comes from a position before.
abbrev pub Forward : Dict Str → Dict Str → Type 0
Forward before after =
    (c q : Str)
    → Dict.lookup c after ≡ some q
    → (p : Str) × (Dict.lookup c before ≡ some p) × Moves c p q

Forward-refl : (m : Dict Str) → Forward m m
Forward-refl m c q e = (q, e, stay)

Forward-trans : (a b d : Dict Str) → Forward a b → Forward b d → Forward a d
Forward-trans a b d f g c r e =
    let (q, eq, n) = g c r e in let (p, ep, m) = f c q eq in (p, ep, Moves-trans c p q m n)

Forward-erase : (column : Str) (m : Dict Str) → Forward m (Dict.erase column m)
Forward-erase column m c q e = (q, ground (arith, lookup-erase column c m), stay)

Forward-insert :
    (column position oid idx : Str) (m : Dict Str)
    → Dict.lookup column m ≡ some position
    → (position ≡ column) ⊎ (compare_oids oid position ≡ Ordering.gt)
    → row_index column oid ≡ some idx
    → Forward m (Dict.insert column oid m)
Forward-insert column position oid idx m at later below c q e =
    elim (Bool-cases (str_eq column c)) [
      | inl same ↦
          let ec = (str_eq_iff column c).0 same in
          let eq : oid ≡ q = ground (arith, lookup-insert column c oid m) in
          let here : Moves column position oid = step idx stay later below in
          (
            position,
            rw (← ec) at,
            subst (λ x. Moves x position q) ec (subst (Moves column position) eq here),
          )
      | inr other ↦ (q, ground (arith, lookup-insert column c oid m), stay)
    ]

end_unanswered-Forward :
    (chunk answered : List Str) (m : Dict Str) → Forward m (end_unanswered chunk answered m)
unfolding end_unanswered
end_unanswered-Forward [] answered m = Forward-refl m
end_unanswered-Forward (c ∷ chunk) answered m = elim (Bool-cases (contains c answered)) [
  | inl a ↦ rw a (end_unanswered-Forward chunk answered m)
  | inr a ↦ rw a (
      Forward-trans m (Dict.erase c m) _ (Forward-erase c m)
        (end_unanswered-Forward chunk answered (Dict.erase c m)))
]

module _ (fl : Floats) (max_rows : ℕ) where
  put_row-Forward :
      (column position index oid idx : Str) (v : ResultValue fl) (w : Walk fl)
      → Dict.lookup column w.next ≡ some position
      → (position ≡ column) ⊎ (compare_oids oid position ≡ Ordering.gt)
      → row_index column oid ≡ some idx
      → Forward w.next (put_row fl max_rows column index oid v w).next
  unfolding put_row
  put_row-Forward column position index oid idx v w at later below =
      let old = rows_of fl max_rows (Dict.lookup column w.store.columns) in
      elim (Bool-cases (leb max_rows (length old))) [
        | inl full ↦ rw full (Forward-erase column w.next)
        | inr room ↦ rw room (Forward-insert column position oid idx w.next at later below)
      ]

  on_value-Forward :
      (column position index oid idx : Str) (d : Option (ResultValue fl)) (w : Walk fl)
      → Dict.lookup column w.next ≡ some position
      → (position ≡ column) ⊎ (compare_oids oid position ≡ Ordering.gt)
      → row_index column oid ≡ some idx
      → Forward w.next (on_value fl max_rows column index oid d w).next
  unfolding on_value
  on_value-Forward column position index oid idx none w =
      Forward-insert column position oid idx w.next
  on_value-Forward column position index oid idx (some v) w =
      put_row-Forward column position index oid idx v w

  on_position-Forward :
      (column index oid idx : Str) (pdu : Pdu fl) (p : Option Str) (w : Walk fl)
      → Dict.lookup column w.next ≡ p
      → row_index column oid ≡ some idx
      → Forward w.next (on_position fl max_rows column index oid pdu p w).next
  unfolding on_position
  on_position-Forward column index oid idx pdu none w at below = Forward-refl w.next
  on_position-Forward column index oid idx pdu (some position) w at below =
      elim (Bool-cases (not (str_eq position column) && not (is_gt (compare_oids oid position)))) [
        | inl stuck ↦ rw stuck (Forward-refl w.next)
        | inr ahead ↦ rw ahead (
            on_value-Forward column position index oid idx (decode_pdu fl pdu) _ at (passed ahead)
              below)
      ]
    where
      passed :
          (not (str_eq position column) && not (is_gt (compare_oids oid position))) ≡ false
          → (position ≡ column) ⊎ (compare_oids oid position ≡ Ordering.gt)
      passed h = ground (arith, str_eq_iff position column)

  on_match-Forward :
      (chunk : List Str) (oid : Str) (pdu : Pdu fl) (m : Option (Str × Str)) (w : Walk fl)
      → longest_match chunk oid ≡ m
      → Forward w.next (on_match fl max_rows oid pdu m w).next
  unfolding on_match
  on_match-Forward chunk oid pdu none w e = Forward-refl w.next
  on_match-Forward chunk oid pdu (some (column, index)) w e =
      on_position-Forward column index oid index pdu (Dict.lookup column w.next) w refl
        (longest_match_found chunk oid column index e).0

  consume_pdus-Forward :
      (chunk : List Str) (pdus : List (Pdu fl)) (w : Walk fl)
      → Forward w.next (consume_pdus fl max_rows chunk pdus w).next
  unfolding consume_pdus
  consume_pdus-Forward chunk [] w = Forward-refl w.next
  consume_pdus-Forward chunk (pdu ∷ pdus) w =
      let oid = canonical_oid pdu.name in
      let w' = on_match fl max_rows oid pdu (longest_match chunk oid) w in
      Forward-trans w.next w'.next _
        (on_match-Forward chunk oid pdu (longest_match chunk oid) w refl)
        (consume_pdus-Forward chunk pdus w')

  -- Whatever a response holds, each column that is still walked after it was walked before it, and
  -- its position has only taken steps forward inside the column.
  pub consume-Forward :
      (variables : List (Pdu fl)) (chunk : List Str) (next : Dict Str) (store : ValueStore fl)
      (report : FetchReport)
      → Forward next (consume fl max_rows variables chunk next store report).next
  unfolding consume
  consume-Forward variables chunk next store report =
      Forward-trans next _ _ (consume_pdus-Forward chunk variables _)
        (end_unanswered-Forward chunk _ _)
