-- ===== src/Hotstuff2/Handlers/Enter.antt =====
-- core/enter.go, and UpdateConsensus of core/hotstuff_2.go: how a replica enters a view.
use dcschain.Base.{
  true, ◌&&◌, ◌||◌, not, [], ◌∷◌, ◌++◌, none, some, pos, ◌+ℤ◌, ◌-ℤ◌, ◌==◌, eq_ℤ, ltb_ℤ,
  if◌then◌else◌,
}
use dcschain.Common.Name.{node_name}
use dcschain.Common.View
use dcschain.Common.Timer.{start}
use dcschain.Common.Encode.{empty_hs_node}
use dcschain.Crypto.Tss.{threshold_sign_verify}
use dcschain.Blockchain.{gen_empty_block}
use dcschain.BasicHotstuff.State.{Env}
use dcschain.Hotstuff2.Types.{
  new_view, new_propose, propose, prepare, empty_proposal, H2Msg, empty_h2_msg, message_to_byte,
}
use dcschain.Hotstuff2.State.{Hotstuff2, get_node_name, get_leader_num, is_leader}
use dcschain.Hotstuff2.Rules.{check_qc}
use dcschain.Hotstuff2.Handlers.ViewChange.{HStep, wish_for, send_both}

unfoldable pub handle_new_view : Env → H2Msg → Hotstuff2 → HStep
unfolding check_qc
handle_new_view env m s =
    if not (s.cur_phase == new_view) && not (s.cur_phase == new_propose)
    then (s, none)
    else if not (check_qc env.signer m.justify1 propose m.justify1.view_number s.blk_store.height)
    then (s, none)
    else if not (check_qc env.signer m.justify2 prepare m.justify2.view_number m.justify2.height)
    then (s, none)
    else if eq_ℤ s.view.view_number (m.view_number +ℤ pos 1)
    then (record s { new_view_msgs = s.new_view_msgs ++ (m ∷ []) }, none)
    else (s, none)

-- UpdateConsensus
unfoldable pub update_consensus : Env → Hotstuff2 → Hotstuff2
unfolding gen_empty_block
update_consensus env s = record s {
  lock_hs2_node = s.lock_hs2_node ++ (s.cur_hs2_node ∷ []);
  lock_blk = s.lock_blk ++ (s.blk_store.cur_proposal_blk ∷ []);
  blk_store = gen_empty_block env.sum_sm3 s.blk_store;
  cur_proposal = empty_proposal;
  cur_hs2_node = empty_hs_node;
  new_view_msgs = [];
  vote1 = [];
  vote2 = [];
}

unfoldable pub start_view_timer : Hotstuff2 → Hotstuff2
unfolding start
start_view_timer s = record s { pm = record (s.pm) { view_timer = start s.pm.view_timer } }

unfoldable pub handle_optimistic_enter : Env → H2Msg → Hotstuff2 → HStep
unfolding check_qc update_consensus start_view_timer View.next_view is_leader
handle_optimistic_enter env m s =
    let t = update_consensus env (record s { pm = record (s.pm) { optimistic_flag = true } }) in
    let u = start_view_timer (record t { view = View.next_view t.view }) in
    if not (eq_ℤ s.view.view_number m.view_number) || s.cur_phase == new_propose
    then (s, none)
    else if not (check_qc env.signer m.justify2 prepare s.view.view_number m.justify2.height)
    then (s, none)
    else if is_leader u
    then (record u { cur_phase = new_propose }, none)
    else (record u { cur_phase = new_view; prepare_qc = m.justify2 }, none)

-- The certificates of a replica that enters a view by a timeout.
unfoldable pub new_view_msg : Hotstuff2 → H2Msg
unfolding ◌-ℤ◌ get_leader_num
new_view_msg s = record empty_h2_msg {
  m_type = new_view;
  reci_node = node_name (get_leader_num s);
  view_number = s.view.view_number -ℤ pos 1;
  justify1 = s.proposal_qc;
  justify2 = s.prepare_qc;
}

-- HandleTC from the catching up on.
unfoldable pub tc_entered : H2Msg → Hotstuff2 → HStep
unfolding new_view_msg start_view_timer start is_leader
tc_entered m s =
    let led = start_view_timer (record s {
      cur_phase = new_view;
      new_view_msgs = s.new_view_msgs ++ (new_view_msg s ∷ []);
    }) in
    let follows = start_view_timer (record s { cur_phase = new_propose }) in
    if is_leader s
    then if ltb_ℤ m.view_number s.view.view_number
      then (s, none)
      else if not (led.cur_phase == new_propose)
      then (record led { pm = record (led.pm) { enter_timer = start led.pm.enter_timer } }, none)
      else (led, none)
    else (follows, some (new_view_msg follows))

unfoldable pub handle_tc : Env → H2Msg → Hotstuff2 → HStep
unfolding tc_entered View.catch_up_view message_to_byte threshold_sign_verify
handle_tc env m s =
    if not (threshold_sign_verify env.signer (message_to_byte (wish_for m.view_number)) m.cons_sign)
    then (s, none)
    else tc_entered m (record s { view = View.catch_up_view m.view_number s.view })

-- The expiry of the enter timer: the leader tells itself to propose.
unfoldable pub enter_expired : Hotstuff2 → Hotstuff2
unfolding send_both get_node_name
enter_expired s =
    let m = record empty_h2_msg { m_type = new_propose; reci_node = get_node_name s } in
    send_both m (record s { cur_phase = new_propose })
