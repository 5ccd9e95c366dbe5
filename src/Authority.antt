-- ===== src/Authority.antt =====
-- The authority behind the dialogue responder: grants of a person and the decisions under them
-- (src/LocalGooseDialogueResponderAuthority.hpp, src/LocalGooseDialogueResponderAuthority.cpp).
pub mod Grant
pub mod Decision
pub mod GrantIdentity
pub mod DecisionIdentity
pub mod Window
mod Examples
