-- ===== src/Server/Ws.antt =====
-- server/src/ws.rs: the handlers of a session's frames, by what they are about.
pub mod Guards
pub mod Presence
pub mod Calls
pub mod Pairing
pub mod Reading
pub mod Sending
pub mod Profiles
pub mod Uploads
pub mod Rooms
pub mod Handshake
pub mod Session
