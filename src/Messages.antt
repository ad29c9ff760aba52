-- ===== src/Messages.antt =====
-- pkg/storage/messages: the memory backend with its retained messages and message streams.
pub mod Backend
pub mod Retained
pub mod Streams
mod Examples
