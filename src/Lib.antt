-- ===== src/Lib.antt =====
-- rsmc-engine: a chat server. HTTP handlers read and write a PostgreSQL database, an event bus
-- hands realtime events to the WebSocket sessions that an in-memory hub keeps, to Redis for other
-- instances and to webhooks.
--
-- Which file models which part (paths from the repository's root):
--   Base and Base/*: lists as tables, maps, texts as code points, sorting, 64-bit integers.
--   Models and Models/*: src/models/*.rs, one record or data type for each struct or enum, with the
--     limits of the requests (`valid_…`) that the validator derives.
--   Error: src/error/mod.rs. Db: migrations/*.sql, one list of rows for each table.
--   Hub: src/ws/hub.rs, one function for each method. Hub/Index: `user_sessions` indexes
--     `sessions`. Hub/Fanout: who receives an event; Hub/Subscriptions: what a subscription changes. Hub/Race: `register` within `unregister`.
--   App and App/*: src/state.rs and what a handler is. `M A` takes the environment and the state of
--     one instance (tables, hub, events that left, UUIDs drawn, clock readings, statements run) to
--     a result or an error and the next state. `execute` is one SQL statement, `transaction` is
--     begin and commit, `emit` sends events. App/Triples, App/HubFrame, App/Refusal, App/Rollback,
--     App/Answering, App/Reading, App/Success:
--     the rules by which bodies are proved to keep an invariant of the tables, to leave the hub
--     alone, to refuse, to undo what they did, and to succeed.
--   Auth: src/auth/jwt.rs and src/auth/password.rs; Auth/Tokens: what a pair of tokens opens.
--   Services/Access: src/services/access.rs and the guards of src/middleware/auth.rs; Middleware: its
--     extractors; Middleware/Principal: whom they let in. Services/Events and
--     Services/Echo: src/services/events.rs and src/services/pubsub.rs. Services/Notifications and
--     Services/Mentions: src/services/notifications.rs. Services/Webhooks: the delivery of
--     src/services/webhooks.rs; its Sha256 and Hmac are the functions of the same names there on
--     bytes and 32-bit words; Padding, Hex and Delivery hold proofs.
--   Handlers/Messages: src/handlers/messages.rs; its statements are in Store, `enrich` is in Enrich,
--     `dispatch_notifications` is in Alerts; Threads, Order, Pages and Grouping hold proofs.
--   Handlers/Channels: src/handlers/channels.rs; its statements are in Store. Handlers/Presence,
--     Handlers/Inbox: src/handlers/presence.rs, src/handlers/notifications.rs.
--   Handlers/Auth: src/handlers/auth.rs; its statements are in Store. Frames, Rotation and
--     Credentials hold proofs: what calls leave alone, what a refresh spends, what a login shows.
--   Handlers/Users, Handlers/Files, Handlers/Webhooks, Handlers/AppLinks, Handlers/System: the file
--     of the same name under src/handlers, with the proofs about each below it.
--   Config: src/config/mod.rs; Config/Origins: the origins and the settings that are loaded.
--     Error/Answers: how src/error/mod.rs answers.
--   Ws: src/ws/handler.rs. Invariant and Invariant/*: what the tables promise, handler by handler.
--   Server: the calls of src/lib.rs's router, of sockets and of Redis as one type, their serving
--     and runs of calls; Server/*: what holds of every call.
--     Server/Accounts and Server/Resources: the same for the calls on accounts and sessions, and on
--     webhooks, bookmarks, files and backups, which are served in runs of their own.
--   Samples, Tests: a small workspace, and the theorems at concrete inputs.
--
-- Parameters (App/Types, `Env`): the UUIDs drawn, the clock in microseconds, which statements are
-- lost, whether Redis is configured, PostgreSQL's LOWER, ILIKE and collation, Rust's `to_lowercase`
-- and `is_alphanumeric`, jsonwebtoken's encoding and decoding under the configured secret, Argon2,
-- base64 and the random bytes, serde_json's encoding of an envelope, the checks of e-mail addresses
-- and URLs, and what the upload volume accepts. pg_dump, pg_restore and the backup directory are
-- `Tools` of Handlers/System; the merging of configuration sources is an argument of `Config.load`.
-- What a theorem needs of them is a named hypothesis: two draws of a UUID differ, a token decodes to
-- the claims it was made of and is refused 60 seconds after it expired, no statement is lost. UUIDs, times and texts are numbers and lists of
-- code points. Lifetimes of tokens are not negative.
--
-- Recursion is on lists, except for the number of pages that Handlers/Messages/Pages follows, of
-- which one more than there are messages is enough, and for the loop that pads a message of SHA-256
-- with zeros, which has 64 steps where 63 are enough.
--
-- Statements of different requests do not interleave: a run serves one call after the other. Only
-- Hub/Race looks between the statements of `unregister`. Not modelled: a dropped connection pool,
-- JSON and multipart decoding, the two tasks that pump a socket and its upgrade, the answer to a
-- webhook's request, the arguments of the child processes of a backup, src/main.rs, src/lib.rs,
-- src/db/mod.rs and the health check: they are input and output, wiring or third-party code.
pub mod Base
pub mod Models
pub mod Hub
pub mod Error
pub mod Config
pub mod Db
pub mod App
pub mod Auth
pub mod Services
pub mod Middleware
pub mod Handlers
pub mod Ws
pub mod Invariant
pub mod Server
pub mod Samples
pub mod Tests
