-- ===== src/Trading.antt =====
-- Trading.cpp: the exchange of items and taros between two players.
pub mod Exchange
pub mod World
pub mod Handlers
pub mod Register
pub mod Dispatch
mod Safety
mod Offers
pub mod Preservation
pub mod Consent
pub mod Money
mod Tests
