-- ===== src/Pulse.antt =====
-- The local activity pulse (src/LocalActivityPulseStore.cpp,
-- src/LocalActivityPulseSchedulerBridge.cpp).
pub mod Cursor
pub mod Transition
pub mod Steps
pub mod Runs
pub mod Deadline
pub mod Store
pub mod Examples
