-- ===== src/EClaim.antt =====
-- The e-Claim package: src/eclaim.
pub mod Sod
pub mod Ap
pub mod Claims
pub mod RateLimit
pub mod Rates
