-- ===== src/Handlers.antt =====
-- handlers/: the HTTP handlers by resource.
pub mod Messages
pub mod Channels
pub mod Presence
pub mod Webhooks
pub mod Inbox
pub mod AppLinks
pub mod Auth
pub mod Users
pub mod Files
pub mod System
