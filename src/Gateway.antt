-- ===== src/Gateway.antt =====
-- The crate gateway/.
pub mod Book
pub mod Engine
pub mod Fees
pub mod Infra
pub mod Service
pub mod Api
pub mod System
pub mod Socket
mod Tests
