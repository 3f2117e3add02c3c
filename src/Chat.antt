-- ===== src/Chat.antt =====
-- apps/chat: rooms, messages and the consumer.
pub mod Signals
pub mod Frame
pub mod Rooms
pub mod Reading
pub mod History
