-- ===== src/Pbft.antt =====
-- orderer/consensus/pbft: its types, its state, the normal case, the checkpoints and the start of a
-- view change, and what they guarantee.
pub mod Types
pub mod Encode
pub mod State
pub mod Log
pub mod Commit
pub mod Normal
pub mod Checkpoint
pub mod Checks
pub mod Safety
pub mod Stable
pub mod Early
pub mod ViewChange
pub mod NewView
pub mod OSet
pub mod Redo
pub mod Core
pub mod Opening
pub mod Rejection
pub mod Sync
