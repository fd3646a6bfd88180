-- ===== src/BasicHotstuff/State.antt =====
-- core/basic_hotstuff.go: the BCHotstuff structure and its constructor. The channels are the lists
-- of what was put into them, in order; `json` is taken to carry a message unchanged, and a message
-- sent by `go` stands where the statement does. The lock and the logger are left out.
use dcschain.Base.{ℕ, ◌*◌, Bool, false, List, [], ◌∷◌, ◌++◌, none, ℤ, pos, negsuc, Text}
use dcschain.Common.View.{View}
use dcschain.Common.Timer.{Timer, new_timer}
use dcschain.Common.Encode.{HsNode}
use dcschain.Crypto.Merkle.{empty_hash}
use dcschain.Crypto.Tss.{Signer}
use dcschain.Blockchain.{BlockStore, empty_block}
use dcschain.BasicHotstuff.Types.{
  StateType, new_view, prepare, commit, Qc, Proposal, empty_proposal, Msg, empty_msg,
}

-- message.ServerMsg as SendSerMsg fills it; its type is always ORDER
pub record ServerMsg : Type 0 where
  pub send_server : Text
  pub reci_server : Text
  pub payload : Msg

-- What a replica takes from outside: the SM3 digest and its threshold signer.
pub record Env : Type 0 where
  pub sum_sm3 : List ℕ → List ℕ
  pub signer : Signer

pub record BcHotstuff : Type 0 where
  pub cur_phase : StateType
  pub cons_id : ℤ
  pub view : View
  pub hs_node : HsNode
  pub prepare_qc : Qc
  pub locked_qc : Qc
  pub last_proposal : Proposal
  pub cur_proposal : Proposal
  pub view_change_send_flag : Bool
  pub ignore_check_qc : Bool
  pub last_round_msg : List Msg
  pub cur_round_msg : List Msg
  pub new_view_msgs : List Msg
  pub prepare_votes : List Msg
  pub pre_commit_votes : List Msg
  pub commit_votes : List Msg
  pub view_timer : Timer
  pub blk_store : BlockStore
  pub has_forward_chan : Bool  -- ForwardChan is not nil
  pub has_send_chan : Bool  -- SendChan is not nil
  pub forwarded : List Msg  -- what was put into ForwardChan
  pub sent : List ServerMsg  -- what was put into SendChan

-- NewBCHotstuff; the timer's duration is given in milliseconds
unfoldable pub new_bc_hotstuff : (List ℕ → List ℕ) → ℕ → ℤ → ℕ → Bool → BcHotstuff
unfolding empty_hash new_timer
new_bc_hotstuff sum_sm3 timer_duration cons_id node_num has_send_chan =
    let e = empty_hash sum_sm3 in
    record {
      cur_phase = new_view;
      cons_id = cons_id;
      view = record { view_number = pos 0; leader = pos 0; nodes_num = node_num };
      hs_node = record { cur_hash = e; parent_hash = e };
      prepare_qc = record {
        q_type = commit;
        view_number = negsuc 0;
        hs_node = record { cur_hash = e; parent_hash = none };
        sign = none;
      };
      locked_qc = record {
        q_type = prepare;
        view_number = negsuc 0;
        hs_node = record { cur_hash = e; parent_hash = none };
        sign = none;
      };
      last_proposal = empty_proposal;
      cur_proposal = empty_proposal;
      view_change_send_flag = false;
      ignore_check_qc = false;
      last_round_msg = record empty_msg { view_number = negsuc 0 } ∷ [];
      cur_round_msg = [];
      new_view_msgs = [];
      prepare_votes = [];
      pre_commit_votes = [];
      commit_votes = [];
      view_timer = new_timer (timer_duration * 1_000_000);
      blk_store = record {
        height = pos 0;
        generated_height = pos 0;
        pre_blk_hash = e;
        cur_blk_hash = e;
        cur_proposal_blk = empty_block;
        files = [];
      };
      has_forward_chan = false;
      has_send_chan = has_send_chan;
      forwarded = [];
      sent = [];
    }

abbrev pub server_msg : Msg → ServerMsg
server_msg m = record { send_server = m.send_node; reci_server = m.reci_node; payload = m }

-- SendSerMsg of a replica with a channel to send on. On a nil one Go blocks for ever, which is
-- outside the model.
unfoldable pub send_ser_msg : Msg → BcHotstuff → BcHotstuff
send_ser_msg m s = record s { sent = s.sent ++ (server_msg m ∷ []) }
