-- ===== src/Examples.antt =====
-- Runs of the services at concrete inputs. No code is modelled here.
pub mod Fixtures
pub mod Money
pub mod Work
pub mod SignIn
pub mod Inboxes
pub mod Requests
pub mod Lists
pub mod Outside
pub mod Concurrent
pub mod Envelopes
pub mod Seeds
pub mod Texts
