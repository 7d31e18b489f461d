-- ===== src/Snmp/Oid.antt =====
-- internal/snmp/oid.go, with `CanonicalOID` and `rowIndex` of internal/snmp/valuestore.go and
-- `longestMatch` and `prefixed` of internal/snmp/fetch.go. A comparison returns the sign of Go's int.
pub mod Order
pub mod Rows
use networkdevicereceiver.Base.{
  ℕ, zero, suc, ◌+◌, ◌-◌, ◌*◌, ◌^◌, Bool, true, false, ◌&&◌, ◌||◌, not, Option, none, some, List,
  [], ◌∷◌, ◌++◌, map, compare, Ordering, ltb, leb, if◌then◌else◌, length, drop, Str, lit, str_eq,
  is_blank, str_compare, has_prefix, trim_prefix, trim_space, split,
}

unfoldable pub canonical_oid : Str → Str
canonical_oid oid = trim_prefix (trim_space oid) (lit ".")

abbrev pub max_uint64 : ℕ
max_uint64 = 2 ^ 64 - 1

-- strconv.ParseUint(s, 10, 64): digits only, at least one, and no overflow.
parse_digits : ℕ → Str → Option ℕ
parse_digits n [] = if leb n max_uint64 then some n else none
parse_digits n (c ∷ s) =
    let rest = parse_digits (n * 10 + (c - 48)) s in if leb 48 c && leb c 57 then rest else none

unfoldable pub parse_uint : Str → Option ℕ
unfolding parse_digits
parse_uint [] = none
parse_uint (c ∷ s) = parse_digits 0 (c ∷ s)

-- The body of the loop at two arcs that differ as text; `rest` is what the later arcs decide.
unfoldable pub compare_arc : Option ℕ → Option ℕ → Str → Str → Ordering → Ordering
compare_arc (some an) (some bn) a b rest = elim (compare an bn) [
  | Ordering.lt ↦ Ordering.lt
  | Ordering.eq ↦ rest
  | Ordering.gt ↦ Ordering.gt
]
compare_arc (some an) none a b rest = str_compare a b
compare_arc none bn a b rest = str_compare a b

unfoldable pub compare_arcs : List Str → List Str → Ordering
compare_arcs [] [] = Ordering.eq
compare_arcs [] (b ∷ bs) = Ordering.lt
compare_arcs (a ∷ as') [] = Ordering.gt
compare_arcs (a ∷ as') (b ∷ bs) =
    let rest = compare_arcs as' bs in
    if str_eq a b then rest else compare_arc (parse_uint a) (parse_uint b) a b rest

unfoldable pub compare_oids : Str → Str → Ordering
compare_oids a b = compare_arcs (split b'.' (canonical_oid a)) (split b'.' (canonical_oid b))

abbrev pub is_lt : Ordering → Bool
is_lt Ordering.lt = true
is_lt Ordering.eq = false
is_lt Ordering.gt = false

abbrev pub is_gt : Ordering → Bool
is_gt Ordering.lt = false
is_gt Ordering.eq = false
is_gt Ordering.gt = true

unfoldable pub oid_less : Str → Str → Bool
oid_less a b = is_lt (compare_oids a b)

-- What is below a column in an OID; `none` is Go's false.
unfoldable pub row_index : Str → Str → Option Str
row_index column oid =
    let c = canonical_oid column in
    let o = canonical_oid oid in
    if not (has_prefix o (c ++ lit ".")) then none else some (drop (length c + 1) o)

-- The loop of `longestMatch`: the best candidate so far with its index, and the ones left.
longer : Str → Option Str → Option (Str × Str) → Option (Str × Str)
longer candidate none best = best
longer candidate (some idx) none = some (candidate, idx)
longer candidate (some idx) (some (column, index)) =
    if ltb (length column) (length candidate) then some (candidate, idx) else some (column, index)

longest_from : Str → Option (Str × Str) → List Str → Option (Str × Str)
unfolding longer
longest_from oid best [] = best
longest_from oid best (candidate ∷ columns) =
    longest_from oid (longer candidate (row_index candidate oid) best) columns

-- The column that an answered OID belongs to, and the row's index below it.
unfoldable pub longest_match : List Str → Str → Option (Str × Str)
unfolding longest_from
longest_match columns oid = longest_from oid none columns

unfoldable pub prefixed : List Str → List Str
prefixed oids = map (λ oid. b'.' ∷ canonical_oid oid) oids
