-- ===== src/Jobs.antt =====
-- apps/jobs: the lifecycle of a job, and what it does to money and chat.
pub mod Service
pub mod Outcome
pub mod Escrow
pub mod Rollback
pub mod Payout
pub mod Refund
pub mod Status
pub mod Race
pub mod Effects
pub mod Room
pub mod Finish
pub mod Discovery
pub mod Progress
pub mod Categories
