-- ===== src/BasicHotstuff.antt =====
-- orderer/consensus/hotstuff, the basic protocol: its types, its state, its handlers, and what they
-- guarantee.
pub mod Types
pub mod State
pub mod Rules
pub mod Handlers
pub mod Core
mod Routing
mod Moves
pub mod Votes
pub mod Agreement
pub mod Lock
pub mod Phases
pub mod Leader
pub mod Sync
