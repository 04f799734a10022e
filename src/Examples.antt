-- ===== src/Examples.antt =====
-- Concrete runs of the modelled code, and the theorems applied to them.
pub mod Data
pub mod Packing
pub mod Codecs
pub mod Executions
pub mod Grants
pub mod Routings
pub mod Catalogs
pub mod Messages
pub mod Plans
pub mod Tables
pub mod Deliveries
pub mod Statuses
pub mod Relays
