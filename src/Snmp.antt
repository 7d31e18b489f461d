-- ===== src/Snmp.antt =====
-- internal/snmp: OIDs, the adaptive batch size, the values of one poll and the fetcher.
pub mod Oid
pub mod Value
pub mod Batch
pub mod Credentials
pub mod Fetch
