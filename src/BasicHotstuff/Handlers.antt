-- ===== src/BasicHotstuff/Handlers.antt =====
-- The handlers of basic HotStuff. Each takes the state and a message, and returns the new state with
-- the message that it answers; the two that read the slice of new-view messages at an index return
-- `none` where the source panics.
mod NewView
mod Prepare
mod PreCommit
mod Commit
mod Decide
unfoldable pub use NewView.*
unfoldable pub use Prepare.*
unfoldable pub use PreCommit.*
unfoldable pub use Commit.*
unfoldable pub use Decide.*
