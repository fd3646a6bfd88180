-- ===== src/ChainedHotstuff/State.antt =====
-- core/chained_hotstuff.go: the CHotstuff structure, its constructor, and the updates of its blocks
-- and nodes. The channels are the lists of what was put into them, in order; `json` is taken to
-- carry a message unchanged, and a message sent by `go` stands where the statement does. The lock,
-- the logger, and LastProposal, which nothing reads, are left out.
use dcschain.Base.{
  ℕ, ◌*◌, Bool, false, List, [], ◌∷◌, ◌++◌, Option, none, ℤ, pos, negsuc, ◌+ℤ◌, ◌==◌, if◌then◌else◌,
  length, Text, Bytes,
}
use dcschain.Common.View.{View}
use dcschain.Common.Timer.{Timer, new_timer}
use dcschain.Common.Encode.{HsNode}
use dcschain.Crypto.Merkle.{empty_hash}
use dcschain.Blockchain.{Block, BlockStore, empty_block}
use dcschain.BasicHotstuff.Types.{StateType, new_view, Proposal, empty_proposal, gen_proposal_hash}
use dcschain.ChainedHotstuff.Types.{Four, four, ChainedQc, empty_chained_qc, CMsg}

-- message.ServerMsg as SendSerMsg fills it; its type is always ORDER
pub record ServerMsg : Type 0 where
  pub send_server : Text
  pub reci_server : Text
  pub payload : CMsg

pub record CHotstuff : Type 0 where
  pub cur_phase : StateType
  pub view : View
  pub cons_id : ℤ
  pub execute_state : Bool
  pub last_leader_state : Bool
  pub hs_nodes : Four HsNode  -- b*, b", b', b
  pub blocks : Four Block
  pub generic_qc : ChainedQc
  pub locked_qc : ChainedQc
  pub cur_proposal : Proposal
  pub cur_round_msg : Option CMsg  -- a pointer, `none` for nil
  pub new_view_msgs : List CMsg
  pub generic_vote_msgs : List CMsg
  pub view_change_send_flag : Bool
  pub view_change_flag : Bool
  pub view_timer : Timer
  pub blk_store : BlockStore
  pub has_forward_chan : Bool  -- ForwardChan is not nil
  pub has_send_chan : Bool  -- SendChan is not nil
  pub forwarded : List CMsg  -- what was put into ForwardChan
  pub sent : List ServerMsg  -- what was put into SendChan

-- NewChainedHotstuff; the timer's duration is given in milliseconds
unfoldable pub new_chained_hotstuff : (List ℕ → List ℕ) → ℕ → ℤ → ℕ → Bool → CHotstuff
unfolding gen_proposal_hash new_timer
new_chained_hotstuff sum_sm3 timer_duration cons_id node_num has_send_chan =
    let e = gen_proposal_hash sum_sm3 empty_proposal in
    let nodes : Four HsNode = four (record { cur_hash = e; parent_hash = e }) in
    let qc : ChainedQc = record empty_chained_qc { view_number = negsuc 0; hs_nodes = nodes } in
    record {
      cur_phase = new_view;
      view = record { view_number = pos 0; leader = pos 0; nodes_num = node_num };
      cons_id = cons_id;
      execute_state = false;
      last_leader_state = false;
      hs_nodes = nodes;
      blocks = four empty_block;
      generic_qc = qc;
      locked_qc = qc;
      cur_proposal = empty_proposal;
      cur_round_msg = none;
      new_view_msgs = [];
      generic_vote_msgs = [];
      view_change_send_flag = false;
      view_change_flag = false;
      view_timer = new_timer (timer_duration * 1_000_000);
      blk_store = record {
        height = pos 0;
        generated_height = pos 0;
        pre_blk_hash = none;
        cur_blk_hash = none;
        cur_proposal_blk = empty_block;
        files = [];
      };
      has_forward_chan = false;
      has_send_chan = has_send_chan;
      forwarded = [];
      sent = [];
    }

abbrev pub server_msg : CMsg → ServerMsg
server_msg m = record { send_server = m.send_node; reci_server = m.reci_node; payload = m }

-- SendSerMsg of a replica with a channel to send on. On a nil one Go blocks for ever, which is
-- outside the model.
unfoldable pub send_ser_msg : CMsg → CHotstuff → CHotstuff
send_ser_msg m s = record s { sent = s.sent ++ (server_msg m ∷ []) }

-- UpdateHsNode
unfoldable pub update_hs_node : HsNode → CHotstuff → CHotstuff
update_hs_node n s = record s {
  hs_nodes = record { at0 = n; at1 = s.hs_nodes.at0; at2 = s.hs_nodes.at1; at3 = s.hs_nodes.at2 };
}

-- UpdateBlock
unfoldable pub update_block : (List ℕ → List ℕ) → Block → CHotstuff → CHotstuff
unfolding empty_hash ◌+ℤ◌
update_block sum_sm3 blk s =
    let cur : Bytes =
      if length blk.blk_data.trans == 0 then empty_hash sum_sm3 else s.blk_store.cur_blk_hash in
    record s {
      blocks = record { at0 = blk; at1 = s.blocks.at0; at2 = s.blocks.at1; at3 = s.blocks.at2 };
      blk_store = record (s.blk_store) {
        cur_blk_hash = cur;
        generated_height = blk.blk_hdr.height +ℤ pos 1;
      };
    }
