-- ===== src/Core.antt =====
-- The shared code of the apps: apps/core.
pub mod Errors
pub mod Floats
pub mod Commission
pub mod Text
pub mod Geo
pub mod Sorting
pub mod Strip
pub mod Ceiling
pub mod Pages
pub mod Envelope
pub mod Phone
pub mod SoftDelete
