-- ===== src/Hotstuff2/Types.antt =====
-- orderer/consensus/hotstuff2/types: state.go, qurom_cert.go, proposal.go, message.go. StateType is a
-- uint8 in the source, and a number here.
use dcschain.Base.{
  ℕ, Bool, ◌&&◌, List, [], ◌∷◌, ◌++◌, none, get_or, ℤ, pos, eq_ℤ, to_byte, Slice, Bytes, Text,
  elems, is_nil, codes, if◌then◌else◌,
}
use dcschain.Common.Encode.{HsNode, empty_hs_node, object_to_byte, two_dim_byte_slice_to_one_dim}
use dcschain.Blockchain.{Block, empty_block}
use dcschain.Crypto.Merkle.{sum, empty_hash}

abbrev pub StateType : Type 0
StateType = ℕ

abbrev pub new_view : StateType
new_view = 0

abbrev pub new_propose : StateType
new_propose = 1

abbrev pub propose : StateType
propose = 2

abbrev pub vote1 : StateType
vote1 = 3

abbrev pub prepare : StateType
prepare = 4

abbrev pub vote2 : StateType
vote2 = 5

abbrev pub wish : StateType
wish = 6

abbrev pub tc_msg : StateType
tc_msg = 7

abbrev pub enter : StateType
enter = 8

-- The names of the states in the order of their numbers.
state_names : List Text
state_names =
    codes "NEW_VIEW"
    ∷ codes "NEW_PROPOSE"
    ∷ codes "PROPOSE"
    ∷ codes "VOTE1"
    ∷ codes "PREPARE"
    ∷ codes "VOTE2"
    ∷ codes "WISH"
    ∷ codes "TCMSG"
    ∷ codes "ENTER"
    ∷ []

-- StateType.String
unfoldable pub state_string : StateType → Text
unfolding state_names
state_string st = get_or state_names st []

pub record QuromCert : Type 0 where
  pub q_type : StateType
  pub view_number : ℤ
  pub height : ℤ
  pub hs2_node : HsNode
  pub sign : Bytes

abbrev pub empty_cert : QuromCert
empty_cert = record {
  q_type = new_view;
  view_number = pos 0;
  height = pos 0;
  hs2_node = empty_hs_node;
  sign = none;
}

unfoldable pub qc_to_sign_msg_byte : QuromCert → List ℕ
unfolding object_to_byte to_byte
qc_to_sign_msg_byte q = q.q_type ∷ to_byte q.view_number ∷ object_to_byte q.hs2_node

pub record Proposal : Type 0 where
  pub height : ℤ
  pub view_number : ℤ
  pub pre_blk_hash : Bytes
  pub root_hash : Bytes
  pub command : Slice Bytes

abbrev pub empty_proposal : Proposal
empty_proposal = record {
  height = pos 0;
  view_number = pos 0;
  pre_blk_hash = none;
  root_hash = none;
  command = none;
}

-- (*Proposal).IsEmpty
unfoldable pub is_empty : Proposal → Bool
is_empty p = eq_ℤ p.height (pos 0) && is_nil p.command

unfoldable pub gen_proposal_hash : (List ℕ → List ℕ) → Proposal → Bytes
unfolding is_empty empty_hash sum two_dim_byte_slice_to_one_dim to_byte
gen_proposal_hash sum_sm3 p =
    if is_empty p
    then empty_hash sum_sm3
    else sum sum_sm3 (
        to_byte p.height
        ∷ to_byte p.view_number
        ∷ (elems p.pre_blk_hash
            ++ (elems p.root_hash ++ elems (two_dim_byte_slice_to_one_dim p.command))))

pub record H2Msg : Type 0 where
  pub m_type : StateType
  pub view_number : ℤ
  pub hs2_node : HsNode
  pub block : Block
  pub cons_sign : Bytes
  pub justify1 : QuromCert
  pub justify2 : QuromCert
  pub send_node : Text
  pub reci_node : Text

-- Go's zero value of H2Msg
abbrev pub empty_h2_msg : H2Msg
empty_h2_msg = record {
  m_type = new_view;
  view_number = pos 0;
  hs2_node = empty_hs_node;
  block = empty_block;
  cons_sign = none;
  justify1 = empty_cert;
  justify2 = empty_cert;
  send_node = [];
  reci_node = [];
}

unfoldable pub message_to_byte : H2Msg → List ℕ
unfolding object_to_byte to_byte
message_to_byte m = m.m_type ∷ to_byte m.view_number ∷ object_to_byte m.hs2_node
