-- ===== src/BasicHotstuff/Handlers/Decide.antt =====
-- core/decide.go (HandleDecide, NewRound) and core/view_change.go.
use dcschain.Base.{true, not, [], ◌∷◌, ◌++◌, none, some, ◌==◌, eq_ℤ, if◌then◌else◌, Bytes}
use dcschain.Common.View.{View}
use dcschain.Common.View
use dcschain.Common.Timer.{start, stop}
use dcschain.Crypto.Tss.{threshold_sign}
use dcschain.Blockchain.{BlockStore, store_block}
use dcschain.BasicHotstuff.Types.{new_view, commit, decide, Msg, empty_msg, message_to_byte}
use dcschain.BasicHotstuff.State.{Env, BcHotstuff, send_ser_msg}
use dcschain.BasicHotstuff.Rules.{get_node_name, get_leader_name, check_qc, or_nil}
use dcschain.BasicHotstuff.Handlers.NewView.{Step}

unfoldable pub new_round : BcHotstuff → BcHotstuff
unfolding View.next_view
new_round s = record s {
  view = View.next_view s.view;
  last_round_msg = s.cur_round_msg;
  cur_round_msg = [];
  new_view_msgs = [];
  prepare_votes = [];
  pre_commit_votes = [];
  commit_votes = [];
}

-- The block of the view, with the signature of the commit QC as its validation, goes to the store.
unfoldable pub store_decided : Bytes → BlockStore → BlockStore
unfolding store_block
store_decided sig bs =
    let blk = record (bs.cur_proposal_blk) {
      blk_hdr = record (bs.cur_proposal_blk.blk_hdr) { validation = sig };
    } in
    store_block (record bs { cur_proposal_blk = blk }) blk

-- HandleDecide after its checks.
decided : Msg → BcHotstuff → Step
unfolding new_round start stop
decided m s =
    let t = new_round (record s {
      view_timer = stop s.view_timer;
      cur_phase = decide;
      blk_store = store_decided m.justify.sign s.blk_store;
    }) in
    (
      record t { view_timer = start t.view_timer },
      some (record empty_msg {
        m_type = new_view;
        view_number = t.view.view_number;
        send_node = get_node_name t;
        justify = t.prepare_qc;
        reci_node = get_leader_name t;
      }),
    )

unfoldable pub handle_decide : Env → Msg → BcHotstuff → Step
unfolding decided
handle_decide env m s =
    if not (s.cur_phase == commit)
    then (s, none)
    else if not (eq_ℤ m.view_number s.view.view_number)
    then (s, none)
    else if not (check_qc env.signer m commit s.view.view_number)
    then (s, none)
    else decided m s

-- The new-view message of StartViewChange, with its signature where signing succeeds.
unfoldable pub view_change_msg : Env → BcHotstuff → Msg
unfolding or_nil
view_change_msg env s =
    let m = record empty_msg {
      m_type = new_view;
      justify = s.prepare_qc;
      view_number = s.view.view_number;
      send_node = get_node_name s;
      reci_node = get_leader_name s;
    } in
    record m { partial_sig = or_nil (threshold_sign env.signer (message_to_byte m)) }

forward : Msg → BcHotstuff → BcHotstuff
forward m s =
    if s.has_forward_chan
    then record s { view_change_send_flag = true; forwarded = s.forwarded ++ (m ∷ []) }
    else s

send_and_log : Msg → BcHotstuff → BcHotstuff
unfolding send_ser_msg
send_and_log m s =
    if s.has_send_chan
    then record (send_ser_msg m s) { cur_round_msg = s.cur_round_msg ++ (m ∷ []) }
    else s

-- StartViewChange, which the view timer's expiry runs
unfoldable pub start_view_change : Env → BcHotstuff → BcHotstuff
unfolding forward send_and_log start View.next_view
start_view_change env s =
    let t = record s { view = View.next_view s.view } in
    let m = view_change_msg env t in
    let u = send_and_log m (forward m t) in
    record u { cur_phase = new_view; view_timer = start u.view_timer }
