-- ===== src/Pbft/Types.antt =====
-- orderer/consensus/pbft/types: state.go, proposal.go, message.go, msglog.go, checkpoint.go and
-- ptimer.go.
use dcschain.Base.{
  ℕ, Bool, true, ◌&&◌, ◌||◌, List, [], ◌∷◌, Option, none, some, ℤ, pos, eq_ℤ, ◌==◌, Slice, Bytes,
  Text, elems, is_nil, length,
}
use dcschain.Common.Timer.{Timer}
use dcschain.Common.Encode.{two_dim_byte_slice_to_one_dim}
use dcschain.Crypto.Merkle.{sum}
use dcschain.Blockchain.{Block, empty_block}

abbrev pub StateType : Type 0
StateType = ℕ

-- `iota`
abbrev pub new_view : StateType
new_view = 0

abbrev pub preprepare : StateType
preprepare = 1

abbrev pub prepare : StateType
prepare = 2

abbrev pub commit : StateType
commit = 3

abbrev pub reply : StateType
reply = 4

abbrev pub view_change : StateType
view_change = 5

abbrev pub checkpoint : StateType
checkpoint = 6

abbrev pub vc_prepare : StateType
vc_prepare = 7

abbrev pub vc_commit : StateType
vc_commit = 8

abbrev pub vc_reply : StateType
vc_reply = 9

abbrev pub waiting : StateType
waiting = 10

-- CHECKPOINTNUM
abbrev pub checkpoint_num : ℕ
checkpoint_num = 10

pub record Proposal : Type 0 where
  pub height : ℤ
  pub view_number : ℤ
  pub pre_blk_hash : Bytes
  pub cur_blk_hash : Bytes
  pub command : Slice Bytes

abbrev pub empty_proposal : Proposal
empty_proposal = record {
  height = pos 0;
  view_number = pos 0;
  pre_blk_hash = none;
  cur_blk_hash = none;
  command = none;
}

-- Proposal.IsEmpty
unfoldable pub is_empty : Proposal → Bool
is_empty p = eq_ℤ p.height (pos 0) && is_nil p.command

unfoldable pub get_commands_digest : (List ℕ → List ℕ) → Proposal → Bytes
unfolding sum two_dim_byte_slice_to_one_dim
get_commands_digest sum_sm3 p = sum sum_sm3 (elems (two_dim_byte_slice_to_one_dim p.command))

pub record VcMsg : Type 0 where
  pub m_type : StateType
  pub view_number : ℤ
  pub seq_num : ℤ
  pub digest : Bytes
  pub signature : Bytes
  pub proposal : Proposal
  pub send_node : Text
  pub reci_node : Text

-- A pre-prepare message and the prepare messages for it.
pub record Pm : Type 0 where
  pub pre_prepare_msg : VcMsg
  pub prepare_msgs : List VcMsg

-- The fields of PMsg but its four slices.
pub record Head : Type 0 where
  pub m_type : StateType
  pub view_number : ℤ
  pub seq_num : ℤ
  pub digest : Bytes
  pub signature : Bytes
  pub proposal : Proposal
  pub block : Block
  pub send_node : Text
  pub reci_node : Text

abbrev pub empty_head : Head
empty_head = record {
  m_type = new_view;
  view_number = pos 0;
  seq_num = pos 0;
  digest = none;
  signature = none;
  proposal = empty_proposal;
  block = empty_block;
  send_node = [];
  reci_node = [];
}

-- A slice of messages, each with the slices that it holds in turn.
pub data PMsgs : Type 0 where
  nil : PMsgs
  cons : (head : Head) (p_set : List Pm) (c_set v_set o_set : PMsgs) → PMsgs → PMsgs

pub record PMsg : Type 0 where
  pub head : Head
  pub p_set : List Pm
  pub c_set : PMsgs
  pub v_set : PMsgs
  pub o_set : PMsgs

-- A message whose slices are nil.
abbrev pub plain : Head → PMsg
plain h = record { head = h; p_set = []; c_set = nil; v_set = nil; o_set = nil }

abbrev pub to_p_msgs : List PMsg → PMsgs
to_p_msgs [] = nil
to_p_msgs (m ∷ ms) = cons m.head m.p_set m.c_set m.v_set m.o_set (to_p_msgs ms)

-- PMsg2VCMsg
unfoldable pub p_msg_to_vc_msg : PMsg → VcMsg
p_msg_to_vc_msg m = record {
  m_type = m.head.m_type;
  view_number = m.head.view_number;
  seq_num = m.head.seq_num;
  digest = m.head.digest;
  signature = m.head.signature;
  proposal = m.head.proposal;
  send_node = m.head.send_node;
  reci_node = m.head.reci_node;
}

pub record MsgsLog : Type 0 where
  pub self_msgs : List PMsg
  pub new_view_msgs : List PMsg
  pub preprepare_msg : Option PMsg  -- a nil pointer is `none`
  pub prepare_msgs : List PMsg
  pub commit_msgs : List PMsg

abbrev pub empty_log : MsgsLog
empty_log = record {
  self_msgs = [];
  new_view_msgs = [];
  preprepare_msg = none;
  prepare_msgs = [];
  commit_msgs = [];
}

abbrev pub log_is_empty_at : Option PMsg → List PMsg → Bool
log_is_empty_at none prepares = true
log_is_empty_at (some m) prepares = is_empty m.head.proposal || length prepares == 0

-- (*MsgsLog).IsEmpty
unfoldable pub log_is_empty : MsgsLog → Bool
unfolding is_empty
log_is_empty l = log_is_empty_at l.preprepare_msg l.prepare_msgs

pub record CheckPoint : Type 0 where
  pub seq : ℤ
  pub cp_msgs : List PMsg
  pub wait_seq : ℤ
  pub cp_msgs_buffer : ℤ → List PMsg  -- a missing key reads as the empty slice

pub record PTimer : Type 0 where
  pub vc_msg_send_flag : Bool
  pub timer : Timer
