-- ===== src/Tests.antt =====
-- The theorems at concrete inputs.
mod Data
mod Market
mod Topology
mod Text
mod Order
mod Client
mod Manager
mod Sale
mod Offering
mod Trade
mod Commands
mod Succeeds
mod Ports
mod Race
