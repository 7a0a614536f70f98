-- ===== src/Server/Rooms.antt =====
-- server/src/rooms.rs: rooms, their members, and the link between partners. A function that writes
-- is one transaction: it returns the tables after it, which are the tables before it on an error.
pub mod Queries
pub mod Pairing
pub mod Links
pub mod Monogamy
pub mod Mutations
pub mod Leaving
