-- ===== src/Responder.antt =====
-- The dialogue responder's records and their validation (src/LocalGooseDialogueResponder.cpp).
pub mod Canonical
pub mod Lease
pub mod Intent
pub mod Disposition
pub mod Identity
mod Made
pub mod Rows
pub mod Store
mod Examples
