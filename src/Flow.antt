-- ===== src/Flow.antt =====
-- rust/emane-core/src/flow_control_manager.rs and flow_control_client.rs: token flow control
-- between a radio model (the manager) and its boundary client.
pub mod Manager
pub mod Client
pub mod Protocol
mod Tests
