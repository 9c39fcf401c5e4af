-- ===== src/Chat.antt =====
-- src/chat_server.c.
pub mod State
pub mod Send
pub mod Line
pub mod Read
pub mod Close
pub mod New
pub mod Invariant
pub mod Frame
pub mod Room
pub mod Watch
pub mod Own
pub mod Handler
pub mod Server
