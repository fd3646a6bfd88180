-- ===== src/ChainedHotstuff/Handlers/Generic.antt =====
-- core/generic.go: CHandleGeneric. A replica votes on a proposal, and the chain of nodes under it
-- moves the certificates and stores a block.
use dcschain.Base.{
  true, false, ◌&&◌, not, [], ◌∷◌, Option, none, some, pos, ◌-ℤ◌, eq_ℤ, if◌then◌else◌, Bytes,
  bytes_equal, text_eq,
}
use dcschain.Common.View
use dcschain.Common.Timer.{start, stop}
use dcschain.Crypto.Tss.{threshold_sign}
use dcschain.Blockchain.{hash, store_block}
use dcschain.Blockchain
use dcschain.BasicHotstuff.Types.{new_view, generic_vote}
use dcschain.BasicHotstuff.State.{Env}
use dcschain.ChainedHotstuff.Types.{CMsg, empty_c_msg, chained_message_to_byte}
use dcschain.ChainedHotstuff.State.{CHotstuff, update_block}
use dcschain.ChainedHotstuff.Rules.{get_node_name, get_leader_name, is_leader, check_new_c_hs_node}
use dcschain.ChainedHotstuff.Handlers.NewView.{CStep}

-- The generic-vote message on `m` under the part signature `sig`.
unfoldable pub vote_for : CMsg → Bytes → CHotstuff → CMsg
vote_for m sig s = record empty_c_msg {
  m_type = generic_vote;
  view_number = m.view_number;
  reci_node = get_leader_name s;
  hs_nodes = m.hs_nodes;
  partial_sig = sig;
}

-- CHandleGeneric up to the signature.
unfoldable pub generic_received : Env → CMsg → CHotstuff → CHotstuff
unfolding update_block stop is_leader
generic_received env m s =
    let t = record s { view_change_flag = false } in
    let u = record (update_block env.sum_sm3 m.blk t) { view_timer = stop t.view_timer } in
    if is_leader t then record t { hs_nodes = m.hs_nodes } else record u { hs_nodes = m.hs_nodes }

-- The block under three nodes in a row is stored, under the signature `sig`, if it is the one of
-- the last node.
unfoldable pub store_three_chain : Env → Bytes → CHotstuff → CHotstuff
unfolding hash store_block ◌-ℤ◌
store_three_chain env sig s =
    let blk = record (s.blocks.at3) {
      blk_hdr = record (s.blocks.at3.blk_hdr) { validation = sig };
    } in
    let bs = store_block (record (s.blk_store) { cur_blk_hash = hash env.sum_sm3 blk }) blk in
    if not (Blockchain.is_empty s.blocks.at3)
      && bytes_equal (hash env.sum_sm3 s.blocks.at3) s.hs_nodes.at3.cur_hash
    then record s {
      blocks = record (s.blocks) { at3 = blk };
      blk_store = record bs { height = bs.height -ℤ pos 1 };
      execute_state = true;
    }
    else record s { execute_state = true }

-- The three nested tests on the parents of the nodes.
unfoldable pub update_chain : Env → CMsg → CHotstuff → CHotstuff
unfolding store_three_chain
update_chain env m s =
    let n = m.hs_nodes in
    let t = record s { generic_qc = m.justify } in
    let u = record t { locked_qc = m.justify } in
    if not (bytes_equal n.at0.parent_hash n.at1.cur_hash)
    then s
    else if not (bytes_equal n.at1.parent_hash n.at2.cur_hash)
    then t
    else if not (bytes_equal n.at2.parent_hash n.at3.cur_hash)
    then u
    else store_three_chain env m.justify.sign u

-- The new-view message of a replica that has entered the next view.
unfoldable pub new_view_msg : CHotstuff → CMsg
unfolding get_leader_name
new_view_msg s = record empty_c_msg {
  m_type = new_view;
  view_number = s.view.view_number;
  hs_nodes = s.hs_nodes;
  justify = s.generic_qc;
  reci_node = get_leader_name s;
}

-- CHandleGeneric from the signature on.
unfoldable pub generic_voted : Env → CMsg → Option Bytes → CHotstuff → CStep
unfolding vote_for update_chain new_view_msg is_leader get_leader_name View.next_view start
generic_voted env m none s = (s, [])
generic_voted env m (some sig) s =
    let vote = vote_for m sig s in
    let t = record (update_chain env m s) { new_view_msgs = [] } in
    let u = record t { view = View.next_view t.view } in
    if is_leader t then (t, vote ∷ []) else (
      record u {
        last_leader_state =
            if text_eq (get_node_name u) (get_leader_name u) then false else u.last_leader_state;
        view_timer = start u.view_timer;
      },
      vote ∷ new_view_msg u ∷ [],
    )

unfoldable pub c_handle_generic : Env → CMsg → CHotstuff → CStep
unfolding generic_received generic_voted check_new_c_hs_node
c_handle_generic env m s =
    if not (eq_ℤ m.view_number s.view.view_number)
    then (s, [])
    else if not (check_new_c_hs_node s m)
    then (s, [])
    else generic_voted env m (threshold_sign env.signer (chained_message_to_byte m))
        (generic_received env m s)
