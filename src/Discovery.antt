-- ===== src/Discovery.antt =====
-- internal/discovery: the device registry, and the identifiers that the scan gives.
pub mod Registry
pub mod Subnet
pub mod Scan
