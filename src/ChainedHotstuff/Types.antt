-- ===== src/ChainedHotstuff/Types.antt =====
-- orderer/consensus/hotstuff/types: chained_QC.go and chained_message.go. StateType and Proposal are
-- those of the basic protocol.
use dcschain.Base.{ℕ, List, [], ◌∷◌, ◌++◌, none, ℤ, pos, to_byte, Bytes, Text}
use dcschain.Common.Encode.{HsNode, empty_hs_node, object_to_byte}
use dcschain.Blockchain.{Block, empty_block}
use dcschain.BasicHotstuff.Types.{StateType, new_view, Proposal, empty_proposal}

-- Go's array `[4]A`
pub record Four (A : Type 0) : Type 0 where
  pub at0 : A
  pub at1 : A
  pub at2 : A
  pub at3 : A

abbrev pub four : {A : Type 0} → A → Four A
four a = record { at0 = a; at1 = a; at2 = a; at3 = a }

pub record ChainedQc : Type 0 where
  pub q_type : StateType
  pub view_number : ℤ
  pub hs_nodes : Four HsNode
  pub sign : Bytes

abbrev pub empty_chained_qc : ChainedQc
empty_chained_qc = record {
  q_type = new_view;
  view_number = pos 0;
  hs_nodes = four empty_hs_node;
  sign = none;
}

pub record CMsg : Type 0 where
  pub m_type : StateType
  pub view_number : ℤ
  pub send_node : Text
  pub reci_node : Text
  pub hs_nodes : Four HsNode
  pub justify : ChainedQc
  pub partial_sig : Bytes
  pub proposal : Proposal
  pub blk : Block

-- Go's zero value of CMsg
abbrev pub empty_c_msg : CMsg
empty_c_msg = record {
  m_type = new_view;
  view_number = pos 0;
  send_node = [];
  reci_node = [];
  hs_nodes = four empty_hs_node;
  justify = empty_chained_qc;
  partial_sig = none;
  proposal = empty_proposal;
  blk = empty_block;
}

unfoldable pub chained_message_to_byte : CMsg → List ℕ
unfolding object_to_byte to_byte
chained_message_to_byte m =
    m.m_type
    ∷ to_byte m.view_number
    ∷ (object_to_byte m.hs_nodes.at0
        ++ (object_to_byte m.hs_nodes.at1
            ++ (object_to_byte m.hs_nodes.at2 ++ object_to_byte m.hs_nodes.at3)))
