-- ===== src/Lib.antt =====
-- little-love: a messenger for two. Its server (server/src, Rust over PostgreSQL and WebSockets) and the
-- cryptography that it shares with the clients (crypto/src).
--
-- The parts and their files:
--   Crypto.Wordlist   crypto/src/wordlist.rs   the BIP39 words
--   Crypto.Invite     crypto/src/invite.rs     invite codes: canonical tokens, encode_code, decode_code
--   Crypto.Sig        crypto/src/sig.rs        domain-separated signing inputs and their verification
--   Crypto.Identity   crypto/src/identity.rs   seeds, their phrases, and the keys derived from them
--   Crypto.Aead, Crypto.Ecdh
--                     crypto/src/aead.rs, ecdh.rs: the envelope of a message, and the key of a room
--   Server.Db         server/migrations        the tables as records of lists
--   Server.Accounts, Server.Invites, Server.Store, Server.Ledgers, Server.Rooms
--                     server/src/accounts.rs, invites.rs, store.rs, attachments.rs, profiles.rs,
--                     push_tokens.rs, rooms.rs: one function for each statement or transaction, with
--                     the constraints of the schema written out
--   Server.Calls, Server.Routing, Server.RateLimit
--                     server/src/calls.rs, routing.rs, and the limiter of ws.rs
--   Server.Wire       server/src/wire.rs       the frames
--   Server.World      the shared state that a handler reads and changes, and the actions of handlers
--   Server.Ws         server/src/ws.rs         the handlers, the handshake, the dispatch of frames
--   Server.Rest       the REST handlers of accounts.rs and invites.rs
--   Server.System     the server as a sequence of events
--   Server.Scrub, Server.Push, Server.Config, Server.Diag
--                     server/src/scrub.rs, push.rs, config.rs with the start of main.rs, diag.rs
--   Server.Keeping    a property of the tables that the statements keep, over the events
--   Server.Couples    what the tables say about couples, over the events
--
-- A handler is an action `World → Option A × World`, whose `none` is an early return; it calls the
-- statements of the database, each of which may fail (`faults`), queues frames for sessions through
-- the routing table, and records pushes and tasks. A handler is one step of the system: the awaits
-- inside it are not interleaved with other handlers, and a transaction is one step, also where it locks
-- nothing, as that of create_invite_record does. There is no fuel: every loop is over a list or a number
-- of steps.
--
-- Third-party code and the outside world are fields of `Server.World.Env`: base64, Unicode, SHA-256,
-- Ed25519, randomness, the database's collation, QR images, presigned URLs, APNs and TURN; regular
-- expressions, HKDF, X25519, the cipher, the JSON of its envelope and the environment are parameters of
-- the definitions that use them. Times are milliseconds, and a time stays the same during a handler. A
-- channel is a number.
--
-- Not modelled: the JSON of frames, the sockets and their heartbeat, the APNs, TURN and R2 transports,
-- logging, transactions that overlap in time, and the static pages of server/src/well_known.rs; the
-- client application in app is written in other languages.
pub mod Prelude
pub mod Crypto
pub mod Server
