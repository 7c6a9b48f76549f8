-- ===== src/ErpSync.antt =====
-- The ERP Sync module: src/erpsync.
pub mod Domain
pub mod Rules
pub mod Quantity
pub mod Emissions
pub mod Dedup
pub mod Store
pub mod Validate
pub mod Gate
pub mod Pipeline
pub mod Ledger
pub mod Review
pub mod Release
pub mod Lifecycle
