-- ===== src/Report.antt =====
-- internal/report: the metrics of one poll.
pub mod Text
pub mod Transform
pub mod Tags
pub mod Row
pub mod Resource
pub mod Pool
pub mod Derived
pub mod Builder
