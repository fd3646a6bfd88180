-- ===== src/BasicHotstuff/Handlers/NewView.antt =====
-- core/new_view.go: the leader collects new-view messages and proposes.
use dcschain.Base.{
  false, ◌&&◌, ◌||◌, not, List, [], ◌∷◌, ◌++◌, Option, none, some, ℤ, pos, ◌-ℤ◌, ◌==◌, leb,
  if◌then◌else◌, elems, length, Bytes, Slice,
}
use dcschain.Common.Timer.{start, stop}
use dcschain.Common.Encode.{two_dim_byte_slice_to_string_slice, cut_off_two_dim_byte_slice}
use dcschain.Blockchain.{gen_new_block}
use dcschain.Quorum.{threshold}
use dcschain.BasicHotstuff.Types.{new_view, prepare, waiting, Msg, empty_msg, broadcast}
use dcschain.BasicHotstuff.State.{Env, BcHotstuff}
use dcschain.BasicHotstuff.Rules.{
  get_node_name, is_leader, matching_msg, check_qc, create_leaf, high_msg,
}

abbrev pub Step : Type 0
Step = BcHotstuff × Option Msg

-- The view that the prepare QC of a new-view message has to be of.
last_view : List Msg → ℤ → ℤ
last_view [] current = current -ℤ pos 1
last_view (m ∷ []) current = m.view_number
last_view (m ∷ n ∷ ms) current = last_view (n ∷ ms) current

-- The new-view messages after `m` has been looked at.
unfoldable pub log_new_view : Env → Msg → BcHotstuff → BcHotstuff
unfolding last_view
log_new_view env m s =
    if matching_msg m new_view s.view.view_number
      && check_qc env.signer m prepare (last_view s.last_round_msg s.view.view_number)
    then record s { new_view_msgs = s.new_view_msgs ++ (m ∷ []) }
    else s

-- The message of a proposal on the new-view message `high`.
proposal_msg : BcHotstuff → Msg → Msg
proposal_msg s high = record empty_msg {
  m_type = prepare;
  view_number = s.view.view_number;
  hs_node = s.hs_node;
  justify = high.justify;
  proposal = s.cur_proposal;
  block = s.blk_store.cur_proposal_blk;
  reci_node = broadcast;
}

-- The state after a proposal of `commands` on `high`, at the time `now`.
unfoldable pub propose : Env → ℤ → Slice Bytes → Msg → BcHotstuff → BcHotstuff
unfolding start stop
propose env now commands high s =
    let blk =
      gen_new_block env.sum_sm3 now s.view.view_number (two_dim_byte_slice_to_string_slice commands)
        [] s.blk_store in
    record s {
      view_timer = start (stop s.view_timer);
      blk_store = blk;
      hs_node = create_leaf (record s { blk_store = blk }) high.justify.hs_node.cur_hash;
      cur_phase = prepare;
    }

-- HandleNewView from the check of the threshold on.
unfoldable pub new_view_quorum : Env → ℤ → BcHotstuff → Option Step
unfolding propose proposal_msg
new_view_quorum env now s =
    if leb (length s.new_view_msgs) (threshold s.view.nodes_num)
    then some (s, none)
    else if length (elems s.cur_proposal.commands) == 0
    then if s.view_change_send_flag
      then some (s, none)
      else some (record s { cur_phase = waiting }, none)
    else elim (high_msg s.new_view_msgs) [
      | none ↦ none
      | some high ↦
          let s' = propose env now s.cur_proposal.commands high s in
          some (s', some (proposal_msg s' high))
    ]

unfoldable pub handle_new_view : Env → ℤ → Msg → BcHotstuff → Option Step
unfolding log_new_view new_view_quorum
handle_new_view env now m s =
    if not (s.cur_phase == new_view || s.cur_phase == waiting)
    then some (s, none)
    else if not (is_leader s)
    then some (s, none)
    else new_view_quorum env now (log_new_view env m s)

unfoldable pub gen_proposal : Env → ℤ → BcHotstuff → Option Step
unfolding propose proposal_msg
gen_proposal env now s =
    if leb (length s.new_view_msgs) (threshold s.view.nodes_num) && not s.ignore_check_qc
    then some (s, none)
    else elim (high_msg s.new_view_msgs) [
      | none ↦ none
      | some high ↦
          let s' =
            record (propose env now (cut_off_two_dim_byte_slice s.cur_proposal.commands 128) high
              s) { ignore_check_qc = false } in
          some (s', some (record (proposal_msg s' high) { send_node = get_node_name s }))
    ]
