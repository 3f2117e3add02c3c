-- ===== src/Notifications.antt =====
-- apps/notifications: the inbox of a user.
pub mod Inbox
pub mod Reading
pub mod Push
pub mod Service
pub mod Delivered
pub mod Sms
pub mod SmsRetry
