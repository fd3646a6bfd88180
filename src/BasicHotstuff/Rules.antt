-- ===== src/BasicHotstuff/Rules.antt =====
-- core/basic_hotstuff.go and new_view.go: the tests that the handlers share.
use dcschain.Base.{
  ℕ, Bool, ◌&&◌, ◌||◌, not, List, [], ◌∷◌, Option, none, some, ℤ, ◌==◌, eq_ℤ, ltb_ℤ, Bytes, Text,
  Slice, elems, is_nil, bytes_equal, text_eq, length, map, get_elem?,
}
use dcschain.Common.Name.{node_name}
use dcschain.Common.View.{leader_name}
use dcschain.Common.Encode.{HsNode}
use dcschain.Common.Highest.{high_index_from}
use dcschain.Crypto.Tss.{Signer, threshold_sign_verify, combine_sig}
use dcschain.BasicHotstuff.Types.{
  StateType, Qc, qc_to_sign_msg_byte, Msg, empty_msg, message_to_byte,
}
use dcschain.BasicHotstuff.State.{BcHotstuff}

unfoldable pub get_node_name : BcHotstuff → Text
get_node_name s = node_name s.cons_id

unfoldable pub get_leader_name : BcHotstuff → Text
unfolding leader_name
get_leader_name s = leader_name s.view

-- IsLeader, and the comparison that the handlers write out
unfoldable pub is_leader : BcHotstuff → Bool
is_leader s = text_eq (get_node_name s) (get_leader_name s)

unfoldable pub matching_msg : Msg → StateType → ℤ → Bool
matching_msg m code cur_view = m.m_type == code && eq_ℤ m.view_number cur_view

unfoldable pub matching_qc : Qc → StateType → ℤ → Bool
matching_qc q code cur_view = q.q_type == code && eq_ℤ q.view_number cur_view

unfoldable pub check_qc : Signer → Msg → StateType → ℤ → Bool
unfolding matching_qc
check_qc σ m code view_number =
    matching_qc m.justify code view_number
    && threshold_sign_verify σ (qc_to_sign_msg_byte m.justify) m.justify.sign

unfoldable pub safe_node : BcHotstuff → HsNode → Qc → Bool
safe_node s n q =
    bytes_equal s.locked_qc.hs_node.cur_hash n.parent_hash
    || ltb_ℤ s.locked_qc.view_number q.view_number

unfoldable pub check_new_hs_node : BcHotstuff → Msg → Bool
unfolding safe_node
check_new_hs_node s m =
    not (is_nil m.hs_node.parent_hash || is_nil m.justify.hs_node.cur_hash)
    && (bytes_equal m.hs_node.parent_hash m.justify.hs_node.cur_hash
        && safe_node s m.hs_node m.justify)

-- VerifyReqs, whose check of the signatures is commented out
unfoldable pub verify_reqs : Slice Bytes → Bool
verify_reqs reqs = not (length (elems reqs) == 0)

unfoldable pub or_nil : Option Bytes → Bytes
or_nil none = none
or_nil (some sig) = sig

-- CombineSign over the message that the voters signed; nil where kyber returns an error
unfoldable pub combine_sign : Signer → List Msg → BcHotstuff → Bytes
unfolding or_nil message_to_byte
combine_sign σ votes s = or_nil (
    combine_sig σ
      (message_to_byte (record empty_msg {
        m_type = s.cur_phase;
        view_number = s.view.view_number;
        hs_node = s.hs_node;
      }))
      (map (λ m. m.partial_sig) votes))

unfoldable pub create_leaf : BcHotstuff → Bytes → HsNode
create_leaf s parent = record { parent_hash = parent; cur_hash = s.blk_store.cur_blk_hash }

-- GetHighQCIndex; `none` is its panic on an empty slice
unfoldable pub get_high_qc_index : List Msg → Option ℕ
unfolding high_index_from
get_high_qc_index [] = none
get_high_qc_index (m ∷ ms) =
    some (high_index_from (λ n. n.justify.view_number) 0 0 m.justify.view_number (m ∷ ms))

-- `NewViewMsgs[HignQCNum]`, a fault of either call being `none`
unfoldable pub high_msg : List Msg → Option Msg
unfolding get_high_qc_index
high_msg ms = elim (get_high_qc_index ms) [ none ↦ none | some i ↦ get_elem? ms i ]
