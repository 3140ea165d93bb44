-- ===== src/Tdma.antt =====
-- rust/plugins/tdma/src/lib.rs: the TDMA radio model.
pub mod Schedule
pub mod Event
pub mod Queue
pub mod Receive
mod Tests
