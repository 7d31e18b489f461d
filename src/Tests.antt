-- ===== src/Tests.antt =====
-- The properties at concrete inputs, and runs of the code.
mod Floats
mod Snmp
mod Credentials
mod Discovery
mod Profile
mod Report
mod Collect
mod Poll
mod Fleet
mod Schedule
mod Start
