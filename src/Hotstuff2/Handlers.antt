-- ===== src/Hotstuff2/Handlers.antt =====
-- The handlers of core, one file for each step of a view.
mod Enter
mod Propose
mod Votes
mod ViewChange
unfoldable pub use Enter.*
unfoldable pub use Propose.*
unfoldable pub use Votes.*
unfoldable pub use ViewChange.*
