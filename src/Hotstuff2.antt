-- ===== src/Hotstuff2.antt =====
-- orderer/consensus/hotstuff2: its types, its state, its handlers, and what they guarantee.
pub mod Types
pub mod State
pub mod Rules
pub mod Commit
pub mod Handlers
pub mod Core
pub mod Range
pub mod Removal
pub mod Kept
pub mod FirstVote
pub mod Timeouts
pub mod Ledger
pub mod Run
pub mod Aligned
pub mod Runs
pub mod Sync
