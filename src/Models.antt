-- ===== src/Models.antt =====
-- models/: the rows of the tables and the bodies of the requests. Ids are numbers, timestamps are
-- numbers of clock ticks, and a JSON payload is the record of the keys that the code puts into it.
mod Users
mod Channels
mod Messages
mod Notifications
mod Integration
mod Protocol
mod Tokens
unfoldable pub use Users.*
unfoldable pub use Channels.*
unfoldable pub use Messages.*
unfoldable pub use Notifications.*
pub use Integration.*
pub use Protocol.*
pub use Tokens.*
