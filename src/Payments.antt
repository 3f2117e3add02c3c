-- ===== src/Payments.antt =====
-- apps/payments: wallets, the ledger, deposits and their confirmation.
pub mod Wallets
pub mod Ledger
pub mod Posting
pub mod Books
pub mod Providers
pub mod Deposits
pub mod Webhooks
pub mod Confirmation
pub mod Callbacks
