-- ===== src/Commands.antt =====
-- esdx4ixps/market/management/commands: registering clients and the broker.
pub mod CreateClient
pub mod Broker
