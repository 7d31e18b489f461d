-- ===== src/Report/Transform.antt =====
-- internal/report/transform.go: flag streams, row indexes and mappings. An error is `none`, and
-- so is the panic that an index beyond the range of int causes: a placement or a position of 2^63 or more
-- always ends in one or the other.
pub mod Index
use networkdevicereceiver.Base.{
  ℕ, zero, suc, ◌+◌, ◌-◌, ◌%◌, Bool, true, false, ◌&&◌, ◌||◌, ◌==◌, Option, none, some, List, [],
  ◌∷◌, ◌++◌, ltb, leb, if◌then◌else◌, length, get_elem?, take, drop, is_empty, Str, lit, split,
  join, trim_space, ℤ, pos, print_int, Floats,
}
use networkdevicereceiver.Base.Dict
use networkdevicereceiver.Base.Dict.{Dict}
use networkdevicereceiver.Profile.Definition.{MetricIndexTransform}
use networkdevicereceiver.Snmp.Value.{ResultValue, string_of}

-- 2^63, the first uint that int does not hold, and 2^64
abbrev pub int_limit : ℕ
int_limit = 9223372036854775808

abbrev pub uint_limit : ℕ
uint_limit = 18446744073709551616

abbrev pub flag_of : Option ℕ → Option Bool
flag_of none = none
flag_of (some c) = if c == b'1' then some true else if c == b'0' then some false else none

-- flagValue, on the text of the value; 1 and 0 are true and false. From 2^63 on int(placement) - 1 is
-- negative, at which the text has no character, or wraps to the largest int, which is an error.
unfoldable pub flag_in : Str → ℕ → Option Bool
flag_in text zero = none
flag_in text (suc idx) =
    if leb int_limit (suc idx) then none else flag_of (get_elem? (trim_space text) idx)

unfoldable pub flag_value : (fl : Floats) → ResultValue fl → ℕ → Option Bool
unfolding flag_in
flag_value fl v placement = flag_in (string_of fl v.value) placement

-- arcs[start:stop], where a slice out of range is a panic
abbrev pub arcs_between : List Str → ℕ → ℕ → Option (List Str)
arcs_between arcs start stop =
    if leb start stop && leb stop (length arcs)
    then some (take (stop - start) (drop start arcs))
    else none

-- The checks, of which the second reads the end as an int, negative from 2^63 on; then the arcs up to
-- end + 1, which wraps to 0.
unfoldable pub slice : List Str → MetricIndexTransform → Option (List Str)
slice arcs tr =
    if ltb tr.end tr.start || (leb (length arcs) tr.end && ltb tr.end int_limit)
    then none
    else arcs_between arcs tr.start ((tr.end + 1) % uint_limit)

abbrev pub append_to : Option (List Str) → Option (List Str) → Option (List Str)
append_to none rest = none
append_to (some xs) none = none
append_to (some xs) (some ys) = some (xs ++ ys)

unfoldable pub slices : List Str → List MetricIndexTransform → Option (List Str)
unfolding slice
slices arcs [] = some []
slices arcs (tr ∷ trs) = append_to (slice arcs tr) (slices arcs trs)

abbrev pub joined_arcs : Option (List Str) → Option Str
joined_arcs none = none
joined_arcs (some arcs) = some (join b'.' arcs)

unfoldable pub transform_index : Str → List MetricIndexTransform → Option Str
unfolding slices
transform_index index [] = some index
transform_index index (tr ∷ trs) = joined_arcs (slices (split b'.' index) (tr ∷ trs))

-- A 1-based arc of a row index. From 2^63 on int(position) is negative, which passes the check, and the
-- uint position - 1 is beyond the arcs.
unfoldable pub index_position : Str → ℕ → Option Str
index_position index zero = none
index_position index (suc i) =
    if leb int_limit (suc i) then none else get_elem? (split b'.' index) i

abbrev pub or_value : Str → Option Str → Str
or_value value none = value
or_value value (some mapped) = mapped

abbrev pub mapped_number : (fl : Floats) → Dict Str → Option fl.F → Option Str
mapped_number fl mapping none = none
mapped_number fl mapping (some f) = Dict.lookup (print_int (fl.truncate f)) mapping

unfoldable pub apply_mapping : (fl : Floats) → Dict Str → Str → Str
apply_mapping fl mapping value =
    if is_empty mapping then value else elim (Dict.lookup value mapping) [
      | some mapped ↦ mapped
      | none ↦ or_value value (mapped_number fl mapping (fl.parse value))
    ]
