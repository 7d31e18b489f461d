-- ===== src/Receiver.antt =====
-- receiver.go: the receiver, which keeps the devices and polls them.
pub mod Schedule
pub mod Fleet
pub mod Poll
pub mod Lifecycle
