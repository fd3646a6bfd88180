-- ===== src/Hotstuff2/State.antt =====
-- core/hotstuff_2.go: the Hotstuff2 structure and its constructor, and pacemaker/packmaker.go. The
-- channels are the lists of what was put into them, in order; `json` is taken to carry a message
-- unchanged, and a message sent by `go` stands where the statement does. The lock and the logger are
-- left out. The blocks of LockBlk are pointers to structures that nothing else refers to, and are
-- taken as the structures.
use dcschain.Base.{
  ℕ, ◌*◌, Bool, false, List, [], ◌∷◌, ◌++◌, none, ℤ, pos, eq_ℤ, Slice, Text, if◌then◌else◌,
}
use dcschain.Common.Name.{node_name}
use dcschain.Common.View.{View, leader_name, next_leader_name}
use dcschain.Common.Timer.{Timer, new_timer}
use dcschain.Common.Encode.{HsNode, empty_hs_node}
use dcschain.Blockchain.{Block, BlockStore, empty_block}
use dcschain.Hotstuff2.Types.{
  StateType, new_view, QuromCert, empty_cert, Proposal, empty_proposal, H2Msg,
}

-- message.ServerMsg as SendSerMsg fills it; its type is always ORDER
pub record ServerMsg : Type 0 where
  pub send_server : Text
  pub reci_server : Text
  pub payload : H2Msg

-- WishMsgs, a map from view numbers; `none` for a missing key
abbrev pub WishMap : Type 0
WishMap = ℤ → Slice H2Msg

unfoldable pub set_wish : ℤ → Slice H2Msg → WishMap → WishMap
set_wish v ms w k = if eq_ℤ k v then ms else w k

pub record Pacemaker : Type 0 where
  pub wish_send_flag : Bool
  pub optimistic_flag : Bool
  pub enter_timer : Timer
  pub view_timer : Timer
  pub wish_msgs : WishMap

pub record Hotstuff2 : Type 0 where
  pub cur_phase : StateType
  pub view : View
  pub cons_id : ℤ
  pub cur_hs2_node : HsNode
  pub cur_proposal : Proposal
  pub proposal_qc : QuromCert
  pub prepare_qc : QuromCert
  pub lock_blk : List Block
  pub lock_hs2_node : List HsNode
  pub ignore_check_qc : Bool
  pub cur_round_msgs : List H2Msg
  pub last_round_msg : List H2Msg
  pub new_view_msgs : List H2Msg
  pub vote1 : List H2Msg
  pub vote2 : List H2Msg
  pub blk_store : BlockStore
  pub pm : Pacemaker
  pub has_forward_chan : Bool  -- ForwardChan is not nil
  pub has_send_chan : Bool  -- SendChan is not nil
  pub forwarded : List H2Msg  -- what was put into ForwardChan
  pub sent : List ServerMsg  -- what was put into SendChan

-- NewHotstuff2; the timers' durations are given in milliseconds
unfoldable pub new_hotstuff2 : ℕ → ℕ → ℤ → ℕ → Bool → Hotstuff2
unfolding new_timer
new_hotstuff2 enter_td view_td cons_id node_num has_send_chan = record {
  cur_phase = new_view;
  view = record { view_number = pos 0; leader = pos 0; nodes_num = node_num };
  cons_id = cons_id;
  cur_hs2_node = empty_hs_node;
  cur_proposal = empty_proposal;
  proposal_qc = empty_cert;
  prepare_qc = empty_cert;
  lock_blk = [];
  lock_hs2_node = [];
  ignore_check_qc = false;
  cur_round_msgs = [];
  last_round_msg = [];
  new_view_msgs = [];
  vote1 = [];
  vote2 = [];
  blk_store = record {
    height = pos 0;
    generated_height = pos 0;
    pre_blk_hash = none;
    cur_blk_hash = none;
    cur_proposal_blk = empty_block;
    files = [];
  };
  pm = record {
    wish_send_flag = false;
    optimistic_flag = false;
    enter_timer = new_timer (enter_td * 1_000_000);
    view_timer = new_timer (view_td * 1_000_000);
    wish_msgs = λ v. none;
  };
  has_forward_chan = false;
  has_send_chan = has_send_chan;
  forwarded = [];
  sent = [];
}

abbrev pub server_msg : H2Msg → ServerMsg
server_msg m = record { send_server = m.send_node; reci_server = m.reci_node; payload = m }

-- SendSerMsg of a replica with a channel to send on. On a nil one Go blocks for ever, which is
-- outside the model.
unfoldable pub send_ser_msg : H2Msg → Hotstuff2 → Hotstuff2
send_ser_msg m s = record s { sent = s.sent ++ (server_msg m ∷ []) }

unfoldable pub get_node_name : Hotstuff2 → Text
get_node_name s = node_name s.cons_id

unfoldable pub get_next_leader_name : Hotstuff2 → Text
unfolding next_leader_name
get_next_leader_name s = next_leader_name s.view

unfoldable pub get_leader_name : Hotstuff2 → Text
unfolding leader_name
get_leader_name s = leader_name s.view

unfoldable pub get_leader_num : Hotstuff2 → ℤ
get_leader_num s = s.view.leader

unfoldable pub is_leader : Hotstuff2 → Bool
unfolding get_leader_num
is_leader s = eq_ℤ (get_leader_num s) s.cons_id
