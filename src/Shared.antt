-- ===== src/Shared.antt =====
-- The crate shared/.
pub mod Domain
pub mod Constants
pub mod Order
pub mod Hex
pub mod Signing
pub mod Json
pub mod Wire
pub mod Tests
