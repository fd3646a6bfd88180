-- ===== src/Orderer.antt =====
-- orderer/core: the orderer, which hands the consensus of a server to the protocol in use.
pub mod State
pub mod Core
pub mod Sync
pub mod Views
