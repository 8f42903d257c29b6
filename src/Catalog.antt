-- ===== src/Catalog.antt =====
-- app/modules/service_catalog/service.py: what customers may buy, and what they bought.
pub mod Lookup
pub mod Selection
pub mod Purchases
pub mod Selects
pub mod Outcome
pub mod Writes
pub mod Totals
pub mod Requests
pub mod Tree
pub mod AddsUp
pub mod Summary
pub mod Prices
pub mod Configs
pub mod Offers
pub mod Projects
pub mod Groups
pub mod Services
pub mod Snapshots
pub mod Selecting
mod Tests
