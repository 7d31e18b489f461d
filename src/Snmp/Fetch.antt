-- ===== src/Snmp/Fetch.antt =====
-- internal/snmp/fetch.go: one poll, as batched GETs for the scalars and a batched walk for the
-- columns. A session and its context are an interface over the state `W` of the world, which every
-- request changes: the model fixes neither what a device answers nor when a poll is cancelled.
pub mod Session
pub mod Scalars
pub mod Consume
pub mod Columns
pub mod Poll
