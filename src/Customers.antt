-- ===== src/Customers.antt =====
-- app/modules/customers/service.py: the customers and their incomes.
pub mod BridgeConfig
pub mod Income
pub mod Service
pub mod Stored
pub mod Refines
pub mod Replaced
pub mod Sound
mod Tests
pub mod Upsert
