-- ===== src/ChainedHotstuff/Handlers/NewView.antt =====
-- core/generic.go: CHandleNewView and GenProposal. The leader collects new-view messages and
-- proposes a block.
use dcschain.Base.{
  Bool, true, false, ◌&&◌, not, List, [], ◌∷◌, ◌++◌, Option, none, some, ℤ, pos, ◌+ℤ◌, ◌==◌, eq_ℤ,
  leb, if◌then◌else◌, elems, length, text_eq,
}
use dcschain.Common.Timer.{stop}
use dcschain.Common.Encode.{HsNode, two_dim_byte_slice_to_string_slice, cut_off_two_dim_byte_slice}
use dcschain.Blockchain.{BlockStore, gen_new_block, gen_empty_block}
use dcschain.Quorum.{threshold}
use dcschain.BasicHotstuff.Types.{new_view, generic, half_generic, waiting, is_empty, broadcast}
use dcschain.BasicHotstuff.State.{Env}
use dcschain.ChainedHotstuff.Types.{Four, CMsg, empty_c_msg}
use dcschain.ChainedHotstuff.State.{CHotstuff, update_block}
use dcschain.ChainedHotstuff.Rules.{
  get_node_name, get_chained_last_leader, is_leader, matching_c_msg, create_leaf,
  exist_not_execute_block, get_high_chained_qc,
}

-- A handler's result; a nil slice of messages is the empty list.
abbrev pub CStep : Type 0
CStep = CHotstuff × List CMsg

-- The new-view messages after `m` has been looked at.
unfoldable pub log_new_view : CMsg → CHotstuff → CHotstuff
unfolding matching_c_msg get_chained_last_leader
log_new_view m s =
    if matching_c_msg m new_view s.view.view_number
    then record s {
      new_view_msgs = s.new_view_msgs ++ (m ∷ []);
      last_leader_state =
          if text_eq m.send_node (get_chained_last_leader s) then true else s.last_leader_state;
    }
    else s

-- The block of a proposal at the time `now`. The code of CHandleNewView counts the height of the
-- store up in both cases, that of GenProposal (`count` false) only for an empty block.
unfoldable pub gen_block_of : Env → ℤ → (count : Bool) → CHotstuff → BlockStore
unfolding ◌+ℤ◌
gen_block_of env now count s =
    let bs = s.blk_store in
    let e = gen_empty_block env.sum_sm3 bs in
    let reqs = cut_off_two_dim_byte_slice s.cur_proposal.commands 128 in
    let b =
      gen_new_block env.sum_sm3 now s.view.view_number (two_dim_byte_slice_to_string_slice reqs)
        (bs.generated_height ∷ []) bs in
    if length (elems s.cur_proposal.commands) == 0
    then record e { height = e.height +ℤ pos 1 }
    else if count
    then record b { height = b.height +ℤ pos 1 }
    else b

-- The nodes of a proposal: a new leaf under the node of the certificate of `high`, and the last three.
unfoldable pub extend_high : CMsg → CHotstuff → Four HsNode
extend_high high s = record {
  at0 = create_leaf s high.justify.hs_nodes.at0.cur_hash;
  at1 = s.hs_nodes.at0;
  at2 = s.hs_nodes.at1;
  at3 = s.hs_nodes.at2;
}

-- The generic message on the nodes `nodes`, in the state after the proposal.
unfoldable pub generic_msg : Four HsNode → CHotstuff → CMsg
generic_msg nodes s = record empty_c_msg {
  m_type = generic;
  view_number = s.view.view_number;
  reci_node = broadcast;
  hs_nodes = nodes;
  proposal = s.cur_proposal;
  blk = s.blk_store.cur_proposal_blk;
  justify = s.generic_qc;
}

-- A proposal on the highest certificate of `high`: the common part of CHandleNewView and GenProposal.
unfoldable pub propose_c : Env → ℤ → Bool → CMsg → CHotstuff → CHotstuff × CMsg
unfolding gen_block_of extend_high generic_msg update_block stop
propose_c env now count high s =
    let t = record s {
      view_timer = stop s.view_timer;
      generic_qc = high.justify;
      blk_store = gen_block_of env now count s;
    } in
    let u = record (update_block env.sum_sm3 t.blk_store.cur_proposal_blk t) {
      cur_phase = half_generic;
      last_leader_state = false;
      execute_state = false;
      new_view_msgs = [];
      generic_vote_msgs = [];
    } in
    (u, generic_msg (extend_high high t) u)

-- CHandleNewView from the check of the threshold on. The flag of the view change is false where it
-- is tested, and the lock is free.
unfoldable pub new_view_quorum : Env → ℤ → CHotstuff → Option CStep
unfolding propose_c is_empty exist_not_execute_block
new_view_quorum env now s =
    let t = record s { last_leader_state = false; view_change_flag = false; cur_phase = waiting } in
    if leb (length s.new_view_msgs) (threshold s.view.nodes_num)
    then some (s, [])
    else if not s.last_leader_state && not s.view_change_flag
    then some (s, [])
    else if t.view_change_flag
    then some (record t { cur_phase = new_view }, [])
    else if not (exist_not_execute_block t) && is_empty t.cur_proposal
    then some (t, [])
    else elim (get_high_chained_qc t.new_view_msgs) [
      | none ↦ none
      | some high ↦ let (u, m) = propose_c env now true high t in some (u, m ∷ [])
    ]

unfoldable pub c_handle_new_view : Env → ℤ → CMsg → CHotstuff → Option CStep
unfolding log_new_view new_view_quorum is_leader
c_handle_new_view env now m s =
    let t = log_new_view m s in
    if not (s.cur_phase == new_view)
    then some (s, [])
    else if not (is_leader t)
    then some (t, [])
    else new_view_quorum env now t

-- GenProposal, with the nil message as an empty list
unfoldable pub gen_proposal : Env → ℤ → CHotstuff → Option CStep
unfolding propose_c get_node_name
gen_proposal env now s =
    if leb (length s.new_view_msgs) (threshold s.view.nodes_num)
      && not (eq_ℤ s.view.view_number (pos 0))
    then some (s, [])
    else elim (get_high_chained_qc s.new_view_msgs) [
      | none ↦ none
      | some high ↦
          let (u, m) = propose_c env now false high s in
          some (u, record m { send_node = get_node_name u } ∷ [])
    ]
