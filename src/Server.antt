-- ===== src/Server.antt =====
-- The server crate, server/src.
pub mod Accounts
pub mod Db
pub mod HashMap
pub mod Invites
pub mod Ledgers
pub mod Rooms
pub mod Keeping
pub mod Couples
pub mod Sql
pub mod Store
pub mod Wire
pub mod World
pub mod Ws
pub mod Rest
pub mod System
pub mod Scenario
pub mod Tests
pub mod Scrub
pub mod Config
pub mod Diag
pub mod Push
pub mod Calls
pub mod RateLimit
pub mod Routing
