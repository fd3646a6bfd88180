-- ===== src/Mgmt.antt =====
-- mps: the node manager, by which nodes join a running system and leave it.
pub mod Types
pub mod Manager
pub mod Handlers
pub mod Choice
