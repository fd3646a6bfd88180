-- ===== src/Mgmt/Types.antt =====
-- mps/mgmt/mgmt_type.go: the messages of the node manager and what they carry.
use dcschain.Base.{ℕ, List, [], Option, none, ℤ, pos, Bytes, Text, codes, if◌then◌else◌, ◌==◌}
use dcschain.Common.Encode.{HsNode}
use dcschain.Blockchain.{Block}
use dcschain.BasicHotstuff.Types.{Qc, empty_qc}
use dcschain.ChainedHotstuff.Types.{ChainedQc, empty_chained_qc}
use dcschain.Hotstuff2.Types.{QuromCert, empty_cert}

abbrev pub NodeManagerType : Type 0
NodeManagerType = Text

abbrev pub basic : NodeManagerType
basic = codes "basic"

pub record NodeKey : Type 0 where
  pub name : Text
  pub sm2_pub_key : Bytes
  pub sm4_key : Bytes

abbrev pub empty_key : NodeKey
empty_key = record { name = []; sm2_pub_key = none; sm4_key = none }

-- A channel, as the number of the inbox behind it; a nil channel is `none`.
abbrev pub Chan : Type 0
Chan = Option ℕ

pub record NodeInfo : Type 0 where
  pub name : Text
  pub node_key : NodeKey
  pub chan : Chan

abbrev pub empty_info : NodeInfo
empty_info = record { name = []; node_key = empty_key; chan = none }

abbrev pub StateType : Type 0
StateType = ℕ

abbrev pub nm_inactive : StateType
nm_inactive = 0

abbrev pub nm_apply : StateType
nm_apply = 1

abbrev pub nm_sync : StateType
nm_sync = 6

abbrev pub nm_agree : StateType
nm_agree = 8

abbrev pub nm_restart : StateType
nm_restart = 9

-- StateType.String
unfoldable pub state_string : StateType → Text
state_string st =
    if st == 0
    then codes "NM_INACTIVE"
    else if st == 1
    then codes "NM_APPLY"
    else if st == 2
    then codes "NM_PREPARE_VOTE"
    else if st == 3
    then codes "NM_PREPARE_CERT"
    else if st == 4
    then codes "NM_COMMIT_VOTE"
    else if st == 5
    then codes "NM_COMMIT_CERT"
    else if st == 6
    then codes "NM_SYNC"
    else if st == 7
    then codes "NM_SYNC_FLAG"
    else if st == 8
    then codes "NM_AGREE"
    else if st == 9
    then codes "NM_RESTART"
    else []

abbrev pub NodeManagerMode : Type 0
NodeManagerMode = ℕ

abbrev pub none_mode : NodeManagerMode
none_mode = 0

abbrev pub join : NodeManagerMode
join = 1

abbrev pub exit : NodeManagerMode
exit = 2

pub record NodeMgmtMsg : Type 0 where
  pub m_type : NodeManagerMode
  pub nm_type : StateType
  pub view_number : ℤ
  pub leader : ℤ
  pub hs_nodes : List HsNode
  pub justify : Qc
  pub h2_justify : QuromCert
  pub c_justify : ChainedQc
  pub node_key : NodeKey
  pub sign : Bytes
  pub block : List Block
  pub send_node : Text
  pub reci_node : Text

abbrev pub empty_mgmt_msg : NodeMgmtMsg
empty_mgmt_msg = record {
  m_type = none_mode;
  nm_type = nm_inactive;
  view_number = pos 0;
  leader = pos 0;
  hs_nodes = [];
  justify = empty_qc;
  h2_justify = empty_cert;
  c_justify = empty_chained_qc;
  node_key = empty_key;
  sign = none;
  block = [];
  send_node = [];
  reci_node = [];
}
