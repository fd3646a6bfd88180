-- ===== src/Server.antt =====
-- core/server: a server, which joins the orderer, the node manager and the network.
pub mod Outcome
pub mod State
pub mod Send
pub mod Requests
pub mod Manager
pub mod Core
pub mod Delivery
pub mod Backlog
pub mod Answers
pub mod Joins
mod Kept
pub mod Members
pub mod Exits
pub mod Arrivals
