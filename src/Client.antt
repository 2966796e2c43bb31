-- ===== src/Client.antt =====
-- client/src: what the web client makes of what the server sends, and its queue of unsent messages.
pub mod ParsedMetadata
mod Stored
pub mod OfflineQueue
mod Flushing
mod Tests
