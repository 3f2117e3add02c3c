-- ===== src/Scripts.antt =====
-- The scripts beside the apps.
pub mod Seed
pub mod SeedTables
pub mod SeedJobs
pub mod SeedMoney
pub mod SeedSurplus
