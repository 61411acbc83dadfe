-- ===== src/App.antt =====
-- state.rs, and what a handler does with it: statements on the database, transactions, events.
-- `M A` is a handler's body: it reads the environment, which is not the repository's code, and
-- changes the state of one instance. Statements of different requests do not interleave.
mod Types
mod Monad
mod Triples
mod HubFrame
mod Refusal
mod Rollback
mod Answering
mod Reading
mod Success
pub use Types.*
pub use HubFrame.*
pub use Refusal.*
pub use Rollback.*
pub use Answering.*
pub use Reading.*
pub use Success.*
pub use Triples.*
unfoldable pub use Monad.*
