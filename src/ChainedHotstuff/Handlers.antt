-- ===== src/ChainedHotstuff/Handlers.antt =====
-- The handlers of core/generic.go, one for each kind of message, and the view change.
mod NewView
mod Generic
mod GenericVote
mod ViewChange
unfoldable pub use NewView.{
  CStep, log_new_view, extend_high, gen_block_of, generic_msg, propose_c, new_view_quorum,
  c_handle_new_view, gen_proposal,
}
unfoldable pub use Generic.{
  vote_for, generic_received, store_three_chain, update_chain, new_view_msg, generic_voted,
  c_handle_generic,
}
unfoldable pub use GenericVote.{
  log_generic_vote, generic_certified, generic_quorum, c_handle_generic_vote,
}
unfoldable pub use ViewChange.{view_change_msg, forward, send_view_change, start_view_change}
