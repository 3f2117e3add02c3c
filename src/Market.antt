-- ===== src/Market.antt =====
-- The marketplace as a whole: the calls that the views let through, in any order.
pub mod Sound
pub mod Lifecycle
pub mod Deposits
pub mod Logins
pub mod Calls
pub mod Funds
pub mod Sessions
pub mod Roles
