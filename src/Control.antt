-- ===== src/Control.antt =====
-- The live control protocol (src/LiveControl.hpp, src/LiveControl.cpp).
pub mod Command
pub mod Validate
pub mod Names
pub mod Sequence
pub mod Rules
pub mod Checks
pub mod Fields
mod Examples
