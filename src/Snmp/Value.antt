-- ===== src/Snmp/Value.antt =====
-- internal/snmp/valuestore.go: the values that one poll reads. The gosnmp types are those that the
-- code looks into: a variable's tag and its dynamic value.
use networkdevicereceiver.Base.{
  ℕ, ◌+◌, ◌*◌, Bool, true, false, Option, none, some, [], ◌∷◌, ◌++◌, map, join, ◌==◌, if◌then◌else◌,
  length, Str, lit, trim_space, ℤ, pos, print_int, print_nat, Floats,
}
use networkdevicereceiver.Base.Dict.{Dict, lookup}
use networkdevicereceiver.Snmp.Oid.{canonical_oid}

-- gosnmp.Asn1BER, by the tags that the code tells apart
pub data Asn1 : Type 0 where
  no_such_object no_such_instance end_of_mib_view null : Asn1
  octet_string bit_string object_identifier ip_address opaque_float opaque_double : Asn1
  integer counter32 counter64 gauge32 time_ticks uinteger32 : Asn1

-- A dynamic value. `other` stands for any further type, by what fmt.Sprint prints of it.
pub data Any (fl : Floats) : Type 0 where
  nil : Any fl
  int int64 : ℤ → Any fl
  uint uint64 uint32 : ℕ → Any fl
  float32 : fl.F32 → Any fl
  float64 : fl.F → Any fl
  string bytes : Str → Any fl
  other : Str → Any fl

-- The dynamic types that a `ResultValue` holds.
pub data Reading (fl : Floats) : Type 0 where
  number : fl.F → Reading fl
  text : Str → Reading fl
  octets : Str → Reading fl

pub record ResultValue (fl : Floats) : Type 0 where
  pub value : Reading fl
  pub tag : Asn1

pub record Pdu (fl : Floats) : Type 0 where
  pub name : Str
  pub tag : Asn1
  pub value : Any fl

unfoldable pub is_counter_tag : Asn1 → Bool
is_counter_tag Asn1.counter32 = true
is_counter_tag Asn1.counter64 = true
is_counter_tag _ = false

-- binary.BigEndian.Uint64
unfoldable pub big_endian : ℕ → Str → ℕ
big_endian n [] = n
big_endian n (c ∷ s) = big_endian (n * 256 + c) s

module _ (fl : Floats) where
  unfoldable pub is_counter : ResultValue fl → Bool
  unfolding is_counter_tag
  is_counter v = is_counter_tag v.tag

  -- Float: `none` is the error.
  unfoldable pub float_of : Reading fl → Option fl.F
  float_of (number f) = some f
  float_of (text s) = fl.parse (trim_space s)
  float_of (octets s) = fl.parse (trim_space s)

  abbrev integral_text : Option ℤ → fl.F → Str
  integral_text none f = fl.format f
  integral_text (some z) f = print_int z

  -- String
  unfoldable pub string_of : Reading fl → Str
  string_of (text s) = s
  string_of (octets s) = s
  string_of (number f) = integral_text (fl.small_integral f) f

  -- Bytes
  unfoldable pub bytes_of : Reading fl → Option Str
  bytes_of (octets s) = some s
  bytes_of (text s) = none
  bytes_of (number f) = none

  -- fmt.Sprint
  unfoldable pub sprint : Any fl → Str
  sprint Any.nil = lit "<nil>"
  sprint (int z) = print_int z
  sprint (int64 z) = print_int z
  sprint (uint n) = print_nat n
  sprint (uint64 n) = print_nat n
  sprint (uint32 n) = print_nat n
  sprint (float32 f) = fl.sprint32 f
  sprint (float64 f) = fl.sprint f
  sprint (string s) = s
  sprint (bytes s) = lit "[" ++ join b' ' (map print_nat s) ++ lit "]"
  sprint (other s) = s

  abbrev numbered : Asn1 → fl.F → Option (ResultValue fl)
  numbered t f = some (record { value = number f; tag = t })

  unfoldable pub decode_numeric : Asn1 → Any fl → Option (ResultValue fl)
  decode_numeric t (int z) = numbered t (fl.of_int z)
  decode_numeric t (int64 z) = numbered t (fl.of_int z)
  decode_numeric t (uint n) = numbered t (fl.of_int (pos n))
  decode_numeric t (uint64 n) = numbered t (fl.of_int (pos n))
  decode_numeric t (uint32 n) = numbered t (fl.of_int (pos n))
  decode_numeric t (float64 f) = numbered t f
  decode_numeric t (bytes s) =
      if length s == 8 then numbered t (fl.of_int (pos (big_endian 0 s))) else none
  decode_numeric t Any.nil = none
  decode_numeric t (string s) = none
  decode_numeric t (float32 f) = none
  decode_numeric t (other s) = none

  unfoldable pub decode_octets : Asn1 → Any fl → Option (ResultValue fl)
  decode_octets t (bytes s) = some (record { value = octets s; tag = t })
  decode_octets t v = some (record { value = text (sprint v); tag = t })

  unfoldable pub decode_identifier : Any fl → Option (ResultValue fl)
  decode_identifier (string s) =
      some (record { value = text (canonical_oid s); tag = Asn1.object_identifier })
  decode_identifier _ =
      some (record { value = text (canonical_oid []); tag = Asn1.object_identifier })

  unfoldable pub decode_address : Any fl → Option (ResultValue fl)
  decode_address (string s) = some (record { value = text s; tag = Asn1.ip_address })
  decode_address _ = none

  unfoldable pub decode_float : Any fl → Option (ResultValue fl)
  decode_float (float32 f) = numbered Asn1.opaque_float (fl.widen f)
  decode_float _ = none

  unfoldable pub decode_double : Any fl → Option (ResultValue fl)
  decode_double (float64 f) = numbered Asn1.opaque_double f
  decode_double _ = none

  abbrev decode_tagged : Asn1 → Any fl → Option (ResultValue fl)
  decode_tagged Asn1.no_such_object v = none
  decode_tagged Asn1.no_such_instance v = none
  decode_tagged Asn1.end_of_mib_view v = none
  decode_tagged Asn1.null v = none
  decode_tagged Asn1.octet_string v = decode_octets Asn1.octet_string v
  decode_tagged Asn1.bit_string v = decode_octets Asn1.bit_string v
  decode_tagged Asn1.object_identifier v = decode_identifier v
  decode_tagged Asn1.ip_address v = decode_address v
  decode_tagged Asn1.opaque_float v = decode_float v
  decode_tagged Asn1.opaque_double v = decode_double v
  decode_tagged t v = decode_numeric t v

  -- `none` is Go's false: the OID has no value here.
  unfoldable pub decode_pdu : Pdu fl → Option (ResultValue fl)
  decode_pdu pdu = decode_tagged pdu.tag pdu.value

  pub record ValueStore : Type 0 where
    pub scalars : Dict (ResultValue fl)
    pub columns : Dict (Dict (ResultValue fl))

  abbrev pub new_value_store : ValueStore
  new_value_store = record { scalars = []; columns = [] }

  unfoldable pub row_count : Dict (Dict (ResultValue fl)) → ℕ
  row_count [] = 0
  row_count ((c, rows) ∷ columns) = length rows + row_count columns

  unfoldable pub count : ValueStore → ℕ
  unfolding row_count
  count s = length s.scalars + row_count s.columns

  -- Lookups answer `none` for ErrNotFound.
  unfoldable pub scalar : ValueStore → Str → Option (ResultValue fl)
  scalar s oid = lookup (canonical_oid oid) s.scalars

  unfoldable pub column : ValueStore → Str → Option (Dict (ResultValue fl))
  column s oid = lookup (canonical_oid oid) s.columns

  abbrev cell : Option (Dict (ResultValue fl)) → Str → Option (ResultValue fl)
  cell none index = none
  cell (some col) index = lookup index col

  unfoldable pub column_value : ValueStore → Str → Str → Option (ResultValue fl)
  unfolding column
  column_value s oid index = cell (column s oid) index
