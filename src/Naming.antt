-- ===== src/Naming.antt =====
-- internal/naming: the metric that a symbol is emitted as.
pub mod Fallback
pub mod Registry
