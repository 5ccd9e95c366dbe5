-- ===== src/Provider.antt =====
-- The outbound provider call (src/Provider.hpp, src/ProviderTaskHandler.cpp).
pub mod Api
pub mod Handler
pub mod Once
pub mod AtMostOnce
pub mod History
pub mod Examples
