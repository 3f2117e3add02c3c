-- ===== src/Api.antt =====
-- The HTTP interface: the views of the apps, with their permissions and their statuses.
pub mod Access
pub mod Accounts
pub mod Requests
pub mod Objects
