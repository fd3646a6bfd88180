-- ===== src/ChainedHotstuff.antt =====
-- orderer/consensus/hotstuff, the chained protocol: its types, its state, its handlers, and what they
-- guarantee.
pub mod Types
pub mod State
pub mod Rules
pub mod Handlers
pub mod Core
pub mod Run
pub mod Frame
pub mod Proposals
pub mod Collecting
pub mod Routed
pub mod Steps
pub mod Runs
pub mod Growth
pub mod Votes
pub mod Chain
pub mod Certificate
pub mod Sync
