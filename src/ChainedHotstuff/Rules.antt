-- ===== src/ChainedHotstuff/Rules.antt =====
-- core/chained_hotstuff.go and generic.go: the tests that the handlers share.
use dcschain.Base.{
  Bool, false, ◌&&◌, ◌||◌, not, List, [], ◌∷◌, Option, none, some, ℤ, pos, ◌-ℤ◌, ◌==◌, eq_ℤ, ltb_ℤ,
  if◌then◌else◌, Bytes, Text, is_nil, bytes_equal, text_eq, map, get_elem?,
}
use dcschain.Common.Name.{node_name}
use dcschain.Common.View.{leader_name, last_leader_name}
use dcschain.Common.Encode.{HsNode}
use dcschain.Common.Highest.{high_index_from}
use dcschain.Crypto.Tss.{Signer, combine_sig}
use dcschain.BasicHotstuff.Types.{StateType, new_view, generic_vote, Qc}
use dcschain.BasicHotstuff.Rules.{or_nil}
use dcschain.ChainedHotstuff.Types.{Four, ChainedQc, CMsg, chained_message_to_byte}
use dcschain.ChainedHotstuff.State.{CHotstuff}

unfoldable pub get_node_name : CHotstuff → Text
get_node_name s = node_name s.cons_id

-- GetLeaderName and GetChainedCurLeader
unfoldable pub get_leader_name : CHotstuff → Text
unfolding leader_name
get_leader_name s = leader_name s.view

unfoldable pub get_chained_last_leader : CHotstuff → Text
unfolding last_leader_name
get_chained_last_leader s = last_leader_name s.view

unfoldable pub is_leader : CHotstuff → Bool
is_leader s = text_eq (get_node_name s) (get_leader_name s)

unfoldable pub matching_c_msg : CMsg → StateType → ℤ → Bool
matching_c_msg m code cur_view = m.m_type == code && eq_ℤ m.view_number cur_view

unfoldable pub check_c_msg : CMsg → StateType → ℤ → Bool
unfolding matching_c_msg
check_c_msg m code view_num =
    if code == new_view
    then matching_c_msg m code (view_num -ℤ pos 1)
    else if code == generic_vote
    then matching_c_msg m code view_num
    else false

-- MatchingCQC, which takes a certificate of the basic protocol
unfoldable pub matching_c_qc : Qc → StateType → ℤ → Bool
matching_c_qc q code cur_view = q.q_type == code && eq_ℤ q.view_number cur_view

unfoldable pub safe_node : CHotstuff → Four HsNode → ChainedQc → Bool
safe_node s nodes q =
    bytes_equal q.hs_nodes.at0.cur_hash nodes.at0.parent_hash
    || ltb_ℤ s.locked_qc.view_number q.view_number

unfoldable pub check_new_c_hs_node : CHotstuff → CMsg → Bool
unfolding safe_node
check_new_c_hs_node s m =
    not (is_nil m.hs_nodes.at0.parent_hash || is_nil m.hs_nodes.at1.cur_hash)
    && (bytes_equal m.hs_nodes.at0.parent_hash m.hs_nodes.at1.cur_hash
        && safe_node s m.hs_nodes m.justify)

-- CombineSign over the votes; the outer `none` is the panic on a nil CurRoundMsg
unfoldable pub combine_sign : Signer → List CMsg → CHotstuff → Option Bytes
unfolding or_nil chained_message_to_byte
combine_sign σ votes s = elim s.cur_round_msg [
  | none ↦ none
  | some m ↦
      some (or_nil (combine_sig σ (chained_message_to_byte m) (map (λ v. v.partial_sig) votes)))
]

unfoldable pub create_leaf : CHotstuff → Bytes → HsNode
create_leaf s parent = record { parent_hash = parent; cur_hash = s.blk_store.cur_blk_hash }

-- ExistNotExecuteBlock, whose loop is commented out
unfoldable pub exist_not_execute_block : CHotstuff → Bool
exist_not_execute_block s = false

-- GetHighChainedQC; `none` is its panic on an empty slice
unfoldable pub get_high_chained_qc : List CMsg → Option CMsg
unfolding high_index_from
get_high_chained_qc [] = none
get_high_chained_qc (m ∷ ms) =
    get_elem? (m ∷ ms)
      (high_index_from (λ n. n.justify.view_number) 0 0 m.justify.view_number (m ∷ ms))
