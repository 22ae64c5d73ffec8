-- ===== src/Gateway/Tests.antt =====
-- Runs of the matcher, and the theorems at concrete inputs.
mod Sample
mod Book
mod Engine
mod Fees
mod Service
mod Api
mod System
mod Requests
mod Socket
