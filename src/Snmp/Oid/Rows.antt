-- ===== src/Snmp/Oid/Rows.antt =====
-- Which column an answered OID belongs to: `rowIndex` and `longestMatch`.
use networkdevicereceiver.Base.{
  ℕ, ◌+◌, ◌≤◌, ◌≡◌, refl, sym, subst, ap, ◌↔◌, inl, inr, Bool-cases, not, Option, none, some, List,
  [], ◌∷◌, ◌++◌, arith, Str, lit, length, drop, length-append, All, All-imp, Any, has_prefix,
  has_prefix-append, has_prefix-split, if◌then◌else◌, ltb,
}
use networkdevicereceiver.Snmp.Oid.{canonical_oid, row_index, longer, longest_from, longest_match}

drop-append {ℓ} : {A : Type ℓ} (xs ys : List A) → drop (length xs) (xs ++ ys) ≡ ys
drop-append [] ys = refl
drop-append (x ∷ xs) ys = drop-append xs ys

abbrev cut : Str → Str → Option Str
cut c o = if not (has_prefix o (c ++ lit ".")) then none else some (drop (length c + 1) o)

dotted : (c : Str) → length (c ++ lit ".") ≡ length c + 1
dotted c = omega (arith, length-append c (lit "."))

cut-some : (c o idx : Str) → cut c o ≡ some idx → o ≡ c ++ lit "." ++ idx
cut-some c o idx h = elim (Bool-cases (has_prefix o (c ++ lit "."))) [
  | inl below ↦
      let rest : drop (length c + 1) o ≡ idx = ground arith in
      let whole = has_prefix-split o (c ++ lit ".") below in sym (rw (dotted c, rest) at whole)
  | inr above ↦ absurd (ground arith)
]

cut-append : (c idx : Str) → cut c (c ++ lit "." ++ idx) ≡ some idx
cut-append c idx =
    rw (has_prefix-append (c ++ lit ".") idx, ← dotted c) (ap some (drop-append (c ++ lit ".") idx))

-- An OID is in a column's subtree exactly when it is the column, a dot and its row index.
pub row_index_iff :
    (column oid idx : Str)
    → (row_index column oid ≡ some idx)
      ↔ (canonical_oid oid ≡ canonical_oid column ++ lit "." ++ idx)
unfolding row_index
row_index_iff column oid idx = (
  cut-some (canonical_oid column) (canonical_oid oid) idx,
  λ e. rw e (cut-append (canonical_oid column) idx),
)

abbrev reach : Option (Str × Str) → ℕ
reach none = 0
reach (some (column, _)) = length column + 1

-- A choice, if there is one, has the OID below it and is a column with the property.
abbrev Chosen : (Str → Type 0) → Str → Option (Str × Str) → Type 0
Chosen P oid none = Unit {0}
Chosen P oid (some (column, index)) = (row_index column oid ≡ some index) × P column

-- every candidate that has the OID is no longer than what was chosen
abbrev Bounds : Str → ℕ → Str → Type 0
Bounds oid n c = (idx : Str) → row_index c oid ≡ some idx → length c + 1 ≤ n

reach-longer :
    (c : Str) (r : Option Str) (best : Option (Str × Str)) → reach best ≤ reach (longer c r best)
unfolding longer
reach-longer c none best = omega arith
reach-longer c (some i) none = omega arith
reach-longer c (some i) (some (d, j)) = ground arith

longer_covers :
    (c : Str) (r : Option Str) (best : Option (Str × Str)) (idx : Str)
    → r ≡ some idx
    → length c + 1 ≤ reach (longer c r best)
unfolding longer
longer_covers c none best idx h = cc
longer_covers c (some i) none idx h = omega arith
longer_covers c (some i) (some (d, j)) idx h = ground arith

reach-longest_from :
    (oid : Str) (best : Option (Str × Str)) (columns : List Str)
    → (reach best ≤ reach (longest_from oid best columns))
      × All (Bounds oid (reach (longest_from oid best columns))) columns
unfolding longest_from
reach-longest_from oid best [] = (omega arith, tt)
reach-longest_from oid best (c ∷ columns) =
    let next = longer c (row_index c oid) best in
    let rest = reach-longest_from oid next columns in
    (
      omega (arith, rest.0, reach-longer c (row_index c oid) best),
      (λ idx h. omega (arith, rest.0, longer_covers c (row_index c oid) best idx h), rest.1),
    )

longer-Chosen :
    (P : Str → Type 0) (oid c : Str) (r : Option Str) (best : Option (Str × Str))
    → row_index c oid ≡ r
    → P c
    → Chosen P oid best
    → Chosen P oid (longer c r best)
unfolding longer
longer-Chosen P oid c none best e p h = h
longer-Chosen P oid c (some i) none e p h = (e, p)
longer-Chosen P oid c (some i) (some (d, j)) e p h = elim (Bool-cases (ltb (length d) (length c))) [
  | inl b ↦ rw b (e, p)
  | inr b ↦ rw b h
]

longest_from-Chosen :
    (P : Str → Type 0) (oid : Str) (best : Option (Str × Str)) (columns : List Str)
    → All P columns
    → Chosen P oid best
    → Chosen P oid (longest_from oid best columns)
unfolding longest_from
longest_from-Chosen P oid best [] a h = h
longest_from-Chosen P oid best (c ∷ columns) a h =
    longest_from-Chosen P oid (longer c (row_index c oid) best) columns a.1
      (longer-Chosen P oid c (row_index c oid) best refl a.0 h)

abbrev pub IsAmong : List Str → Str → Type 0
IsAmong columns c = Any (λ d. d ≡ c) columns

All-IsAmong : (columns : List Str) → All (IsAmong columns) columns
All-IsAmong [] = tt
All-IsAmong (c ∷ columns) = (
  inl refl,
  All-imp (IsAmong columns) (IsAmong (c ∷ columns)) columns (λ x h. inr h) (All-IsAmong columns),
)

-- A match is one of the columns, has the OID in its subtree under the returned index, and no column
-- that also has the OID is longer.
pub longest_match_found :
    (columns : List Str) (oid column index : Str)
    → longest_match columns oid ≡ some (column, index)
    → (row_index column oid ≡ some index)
      × IsAmong columns column
      × All (λ c. (idx : Str) → row_index c oid ≡ some idx → length c ≤ length column) columns
unfolding longest_match
longest_match_found columns oid column index h =
    let sound = longest_from-Chosen (IsAmong columns) oid none columns (All-IsAmong columns) tt in
    let chosen = subst (Chosen (IsAmong columns) oid) h sound in
    let bounds =
      subst (λ r. All (Bounds oid (reach r)) columns) h (reach-longest_from oid none columns).1 in
    (
      chosen.0,
      chosen.1,
      All-imp (Bounds oid (length column + 1)) _ columns (λ c b idx e. omega (arith, b idx e))
          bounds,
    )

-- No match means that no column has the OID in its subtree.
pub longest_match_none :
    (columns : List Str) (oid : Str)
    → longest_match columns oid ≡ none
    → All (λ c. row_index c oid ≡ none) columns
unfolding longest_match
longest_match_none columns oid h =
    All-imp (Bounds oid 0) _ columns (λ c b. outside c (row_index c oid) refl b)
      (subst (λ r. All (Bounds oid (reach r)) columns) h (reach-longest_from oid none columns).1)
  where
    outside :
        (c : Str) (r : Option Str) → row_index c oid ≡ r → Bounds oid 0 c → row_index c oid ≡ none
    outside c none e b = e
    outside c (some i) e b = absurd (omega (arith, b i e))
