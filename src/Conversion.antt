-- ===== src/Conversion.antt =====
-- esdx4ixps/util/conversion.py: lists of integers, ISD-AS identifiers and underlay addresses.
pub mod Csv
pub mod Ia
pub mod Ip
pub mod Address
