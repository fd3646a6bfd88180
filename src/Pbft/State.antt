-- ===== src/Pbft/State.antt =====
-- core/pbft.go and core/utils.go: the PBFT structure, its constructor, and what the handlers share.
-- The maps of the structure are functions, a missing key reading as the empty slice. MsgLog is a
-- function of the slot with its length beside it: the slots read are below 10, and the length is
-- 10 or 64.
use dcschain.Base.{
  ℕ, ◌*◌, zero, suc, Bool, false, List, [], ◌∷◌, ◌++◌, Option, none, some, ℤ, pos, eq_ℤ, leb,
  if◌then◌else◌, length, map, Bytes, Text,
}
use dcschain.Common.Name.{node_name}
use dcschain.Common.View.{View}
use dcschain.Common.View
use dcschain.Common.Timer.{new_timer}
use dcschain.Crypto.Merkle.{empty_hash}
use dcschain.Quorum.{threshold}
use dcschain.Blockchain.{BlockStore, empty_block, hash}
use dcschain.Pbft.Types.{
  StateType, new_view, waiting, checkpoint_num, Proposal, empty_proposal, empty_head, PMsg, plain,
  Pm, p_msg_to_vc_msg, MsgsLog, empty_log, log_is_empty, CheckPoint, PTimer,
}

-- What a replica takes from outside: SM3, its SM2 signer, and the json of a slice of messages.
pub record Env : Type 0 where
  pub sum_sm3 : List ℕ → List ℕ
  pub sign : List ℕ → Bytes
  pub verify_sign : Text → Bytes → List ℕ → Bool
  pub marshal : List PMsg → Option (List ℕ)

pub record ServerMsg : Type 0 where
  pub send_server : Text
  pub reci_server : Text
  pub payload : PMsg

pub record Pbft : Type 0 where
  pub cur_phase : StateType
  pub view : View
  pub cons_id : ℤ
  pub sequence_num : ℤ
  pub cur_proposal : Proposal
  pub check_point : CheckPoint
  pub view_change_msgs : MsgsLog
  pub new_view_msgs : ℤ → List PMsg
  pub reply_msgs : List PMsg
  pub msg_log : ℕ → MsgsLog
  pub msg_log_len : ℕ
  pub blk_store : BlockStore
  pub p_timer : PTimer
  pub has_forward_chan : Bool
  pub has_send_chan : Bool
  pub forwarded : List PMsg
  pub sent : List ServerMsg

-- NewPBFT
unfoldable pub new_pbft : (List ℕ → List ℕ) → ℕ → ℤ → ℕ → Bool → Pbft
unfolding empty_hash new_timer node_name
new_pbft sum_sm3 timer_duration cons_id node_num has_send_chan = record {
  cur_phase = new_view;
  view = record { view_number = pos 0; leader = pos 0; nodes_num = node_num };
  cons_id = cons_id;
  sequence_num = pos 0;
  cur_proposal = empty_proposal;
  check_point = record {
    seq = pos 0;
    cp_msgs = plain (record empty_head { send_node = node_name cons_id }) ∷ [];
    wait_seq = pos 0;
    cp_msgs_buffer = λ k. [];
  };
  view_change_msgs = empty_log;
  new_view_msgs = λ k. [];
  reply_msgs = [];
  msg_log = λ k. empty_log;
  msg_log_len = checkpoint_num;
  blk_store = record {
    height = pos 0;
    generated_height = pos 0;
    pre_blk_hash = empty_hash sum_sm3;
    cur_blk_hash = empty_hash sum_sm3;
    cur_proposal_blk = empty_block;
    files = [];
  };
  p_timer = record { vc_msg_send_flag = false; timer = new_timer (timer_duration * 1_000_000) };
  has_forward_chan = false;
  has_send_chan = has_send_chan;
  forwarded = [];
  sent = [];
}

-- IsLeader, GetNodeName
unfoldable pub is_leader : Pbft → Bool
is_leader p = eq_ℤ p.view.leader p.cons_id

unfoldable pub get_node_name : Pbft → Text
get_node_name p = node_name p.cons_id

-- UpdateConsensus
unfoldable pub update_consensus : Env → PMsg → Pbft → Pbft
unfolding hash
update_consensus env m p = record p {
  cur_proposal = m.head.proposal;
  blk_store = record (p.blk_store) {
    cur_proposal_blk = m.head.block;
    cur_blk_hash = hash env.sum_sm3 m.head.block;
  };
}

-- The loop of GetValidMsgs over `n` slots from slot `i` on.
unfoldable pub valid_from : ℕ → ℕ → ℕ → (ℕ → MsgsLog) → List Pm
unfolding p_msg_to_vc_msg log_is_empty
valid_from zero i t logs = []
valid_from (suc n) i t logs =
    let rest = valid_from n (suc i) t logs in
    let prepares = (logs i).prepare_msgs in
    elim (logs i).preprepare_msg [
      | none ↦ []
      | some pp ↦
          if log_is_empty (logs i)
          then []
          else if leb (length prepares) t
          then []
          else (record {
            pre_prepare_msg = p_msg_to_vc_msg pp;
            prepare_msgs = map (λ m. p_msg_to_vc_msg m) prepares;
          })
            ∷ rest
    ]

-- GetValidMsgs
unfoldable pub get_valid_msgs : Pbft → List Pm
unfolding valid_from
get_valid_msgs p = valid_from p.msg_log_len 0 (threshold p.view.nodes_num) p.msg_log

-- ReSetViewchangeMsgs
unfoldable pub reset_viewchange_msgs : Pbft → Pbft
reset_viewchange_msgs p = record p { view_change_msgs = empty_log }

-- SendSerMsg of a replica with a channel to send on. On a nil one Go blocks for ever, which is
-- outside the model.
unfoldable pub send_ser_msg : PMsg → Pbft → Pbft
send_ser_msg m p = record p {
  sent =
      p.sent
      ++ (record { send_server = m.head.send_node; reci_server = m.head.reci_node; payload = m }
          ∷ []);
}

-- InitLeader
unfoldable pub init_leader : Pbft → Pbft
init_leader p = record p { cur_phase = waiting }

-- `for p.View.ViewNumber < n { p.View.NextView() }`
unfoldable pub catch_up : ℤ → Pbft → Pbft
unfolding View.catch_up_view
catch_up n p = record p { view = View.catch_up_view n p.view }
