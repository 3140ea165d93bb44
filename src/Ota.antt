-- ===== src/Ota.antt =====
-- rust/emane-core/src/ota_manager.rs: packets over the air, cut into parts and reassembled.
pub mod Types
pub mod Wire
pub mod Send
pub mod Reassembly
pub mod Receive
pub mod Manager
pub mod RoundTrip
pub mod Statistics
mod Tests
