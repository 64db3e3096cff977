-- ===== src/Manager.antt =====
-- crates/limiter/src/manager.rs: the manager of one pod, which shares the device with the
-- managers of other pods in turns, and deals launch tokens to its pod's workers in each turn.
pub mod Baton
pub mod Round
pub mod Plan
pub mod Run
pub mod Reaper
mod Tests
