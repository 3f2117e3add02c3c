-- ===== src/Accounts.antt =====
-- apps/accounts: users, one-time passwords, ratings.
pub mod Auth
pub mod Otp
pub mod Users
pub mod OtpOnce
pub mod OtpLimit
pub mod Ratings
pub mod Logins
pub mod Rates
pub mod Telegram
pub mod Blocking
pub mod Tokens
pub mod Tasks
