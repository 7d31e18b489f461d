-- ===== src/Snmp/Fetch/Session.antt =====
-- The types of internal/snmp/fetch.go and the Session interface of internal/snmp/session.go.
use networkdevicereceiver.Base.{
  ℕ, Bool, Option, List, [], Str, Floats, ℤ, pos, negsuc, ltb, if◌then◌else◌,
}
use networkdevicereceiver.Snmp.Value.{Pdu}

-- gosnmp.SNMPError, by the codes that the code tells apart
pub data SnmpError : Type 0 where
  no_error too_big no_such_name : SnmpError
  other_error : ℕ → SnmpError

pub record Packet (fl : Floats) : Type 0 where
  pub status : SnmpError
  pub error_index : ℕ
  pub variables : List (Pdu fl)

-- A request's outcome: the transport's error, or a packet.
pub data Reply (fl : Floats) : Type 0 where
  failed : Str → Reply fl
  answered : Packet fl → Reply fl

-- The device, the transport and the context. Each operation may change the world's state.
pub record Session (fl : Floats) (W : Type 0) : Type 0 where
  pub get : List Str → W → Reply fl × W
  pub get_bulk : List Str → ℕ → W → Reply fl × W
  pub get_next : List Str → W → Reply fl × W
  pub supports_get_bulk : Bool
  -- ctx.Err()
  pub ctx_err : W → Option Str × W

pub record FetchConfig : Type 0 where
  pub oid_batch_size : ℤ
  pub bulk_max_repetitions : ℕ
  pub max_rows_per_column : ℤ

-- The configuration with its defaults filled in: every limit is positive.
pub record Limits : Type 0 where
  pub batch_size : ℕ
  pub repetitions : ℕ
  pub max_rows : ℕ

abbrev pub positive_or : ℕ → ℤ → ℕ
positive_or d (pos n) = if ltb 0 n then n else d
positive_or d (negsuc n) = d

unfoldable pub with_defaults : FetchConfig → Limits
with_defaults c = record {
  batch_size = positive_or 10 c.oid_batch_size;
  repetitions = positive_or 10 (pos c.bulk_max_repetitions);
  max_rows = positive_or 10000 c.max_rows_per_column;
}

pub record FetchReport : Type 0 where
  pub missing_oids : List Str
  pub pdus : ℕ
  pub truncated_columns : List Str

abbrev pub new_report : FetchReport
new_report = record { missing_oids = []; pdus = 0; truncated_columns = [] }

pub data FetchError : Type 0 where
  cancelled : Str → FetchError
  get_failed : ℕ → Str → FetchError
  single_too_big : FetchError
  get_bad_index : ℕ → FetchError
  get_status : SnmpError → FetchError
  walk_failed : Str → FetchError
  walk_too_big : FetchError
  walk_bad_index : ℕ → FetchError
  walk_status : SnmpError → FetchError
