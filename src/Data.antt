-- ===== src/Data.antt =====
-- The models of accounts, payments, jobs and chat, one module for each models.py.
pub mod Accounts
pub mod Payments
pub mod Jobs
pub mod Chat
pub mod Notifications
