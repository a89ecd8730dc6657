-- ===== src/Market.antt =====
-- esdx4ixps/market: offers and what is bought of them.
pub mod Time
pub mod Profile
pub mod Offer
pub mod Order
pub mod BrAddress
pub mod Derived
pub mod Broker
pub mod Service
pub mod Storage
pub mod Manager
pub mod Purchase
pub mod Trade
