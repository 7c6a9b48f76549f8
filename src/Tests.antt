-- ===== src/Tests.antt =====
-- The theorems on concrete inputs, and runs of the model.
pub mod Core
pub mod Import
pub mod Payables
pub mod Gates
pub mod Staged
pub mod Claimed
pub mod Limited
pub mod Rated
