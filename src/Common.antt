-- ===== src/Common.antt =====
-- orderer/common: the view and its leader (view.go), the timer (timer.go), the slice conversions
-- (encode.go) and the HotStuff node (hotstuff_node.go).
pub mod Name
pub mod View
pub mod Timer
pub mod Encode
pub mod Highest
