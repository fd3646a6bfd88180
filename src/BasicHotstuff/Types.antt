-- ===== src/BasicHotstuff/Types.antt =====
-- orderer/consensus/hotstuff/types: state.go, QC.go, proposal.go, message.go. StateType is a uint8
-- in the source, and a number here.
use dcschain.Base.{
  ℕ, Bool, ◌&&◌, List, [], ◌∷◌, ◌++◌, none, get_or, ℤ, pos, to_byte, Slice, Bytes, Text, elems,
  is_nil, codes, if◌then◌else◌,
}
use dcschain.Common.Encode.{HsNode, empty_hs_node, object_to_byte, two_dim_byte_slice_to_one_dim}
use dcschain.Blockchain.{Block, empty_block}
use dcschain.Crypto.Merkle.{sum, empty_hash}

abbrev pub StateType : Type 0
StateType = ℕ

-- `iota`, the phases of basic HotStuff first
abbrev pub new_view : StateType
new_view = 0

abbrev pub prepare : StateType
prepare = 1

abbrev pub prepare_vote : StateType
prepare_vote = 2

abbrev pub pre_commit : StateType
pre_commit = 3

abbrev pub pre_commit_vote : StateType
pre_commit_vote = 4

abbrev pub commit : StateType
commit = 5

abbrev pub commit_vote : StateType
commit_vote = 6

abbrev pub decide : StateType
decide = 7

abbrev pub chained_new_view : StateType
chained_new_view = 8

abbrev pub half_generic : StateType
half_generic = 9

abbrev pub generic : StateType
generic = 10

abbrev pub generic_vote : StateType
generic_vote = 11

abbrev pub waiting : StateType
waiting = 12

-- The names of the states in the order of their numbers.
state_names : List Text
state_names =
    codes "NEW_VIEW"
    ∷ codes "PREPARE"
    ∷ codes "PREPARE_VOTE"
    ∷ codes "PRE_COMMIT"
    ∷ codes "PRE_COMMIT_VOTE"
    ∷ codes "COMMIT"
    ∷ codes "COMMIT_VOTE"
    ∷ codes "DECIDE"
    ∷ codes "CHINED_NEW_VIEW"
    ∷ codes "HALF_GENERIC"
    ∷ codes "GENERIC"
    ∷ codes "GENERIC_VOTE"
    ∷ codes "WAITING"
    ∷ codes "JOIN"
    ∷ codes "EXIT"
    ∷ codes "PREPARE_CERT"
    ∷ codes "COMMIT_CERT"
    ∷ codes "SYNC"
    ∷ codes "AGREE"
    ∷ codes "RESTART"
    ∷ []

-- StateType.String
unfoldable pub state_string : StateType → Text
unfolding state_names
state_string st = get_or state_names st []

pub record Qc : Type 0 where
  pub q_type : StateType
  pub view_number : ℤ
  pub hs_node : HsNode
  pub sign : Bytes

abbrev pub empty_qc : Qc
empty_qc = record { q_type = new_view; view_number = pos 0; hs_node = empty_hs_node; sign = none }

unfoldable pub qc_to_sign_msg_byte : Qc → List ℕ
unfolding object_to_byte to_byte
qc_to_sign_msg_byte q = q.q_type ∷ to_byte q.view_number ∷ object_to_byte q.hs_node

pub record Proposal : Type 0 where
  pub height : ℤ
  pub pre_blk_hash : Bytes
  pub root_hash : Bytes
  pub commands : Slice Bytes
  pub signs : Slice Bytes
  pub qc : Qc

abbrev pub empty_proposal : Proposal
empty_proposal = record {
  height = pos 0;
  pre_blk_hash = none;
  root_hash = none;
  commands = none;
  signs = none;
  qc = empty_qc;
}

-- (*Proposal).IsEmpty
unfoldable pub is_empty : Proposal → Bool
is_empty p = is_nil p.commands && (is_nil p.root_hash && is_nil p.pre_blk_hash)

unfoldable pub gen_proposal_hash : (List ℕ → List ℕ) → Proposal → Bytes
unfolding is_empty empty_hash sum two_dim_byte_slice_to_one_dim to_byte
gen_proposal_hash sum_sm3 p =
    if is_empty p
    then empty_hash sum_sm3
    else sum sum_sm3 (
        to_byte p.height
        ∷ (elems p.pre_blk_hash
            ++ (elems p.root_hash ++ elems (two_dim_byte_slice_to_one_dim p.commands))))

pub record Msg : Type 0 where
  pub m_type : StateType
  pub nm_type : StateType
  pub view_number : ℤ
  pub hs_node : HsNode
  pub justify : Qc
  pub partial_sig : Bytes
  pub proposal : Proposal
  pub block : Block
  pub send_node : Text
  pub reci_node : Text

-- Go's zero value of Msg
abbrev pub empty_msg : Msg
empty_msg = record {
  m_type = new_view;
  nm_type = new_view;
  view_number = pos 0;
  hs_node = empty_hs_node;
  justify = empty_qc;
  partial_sig = none;
  proposal = empty_proposal;
  block = empty_block;
  send_node = [];
  reci_node = [];
}

unfoldable pub message_to_byte : Msg → List ℕ
unfolding object_to_byte to_byte
message_to_byte m = m.m_type ∷ to_byte m.view_number ∷ object_to_byte m.hs_node

abbrev pub broadcast : Text
broadcast = codes "Broadcast"

abbrev pub client : Text
client = codes "Client"
