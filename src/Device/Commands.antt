-- ===== src/Device/Commands.antt =====
-- device/commands: each function puts its arguments into one command and sends it.
pub mod Basic
pub mod Sweep
pub mod Marker
pub mod Trace
