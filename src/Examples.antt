-- ===== src/Examples.antt =====
-- Runs of the modelled code on concrete inputs.
mod Replica
mod Handlers
mod Pieces
mod Pbft
mod Chained
mod Hotstuff2
mod Server
