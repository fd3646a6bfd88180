-- ===== src/Mgmt/Manager.antt =====
-- mps/mgmt/mgmt.go and mps/basic/manager.go: the node manager's state. The lock and the logger are
-- left out.
use dcschain.Base.{
  List, [], ◌∷◌, Option, none, some, ℤ, Bytes, Text, text_eq, Table, find, put, remove,
  if◌then◌else◌, ◌==◌,
}
use dcschain.Common.Name.{node_name}
use dcschain.Mgmt.Types.{
  NodeKey, empty_key, Chan, NodeInfo, empty_info, StateType, nm_inactive, NodeManagerMode,
  none_mode, join, exit, NodeMgmtMsg,
}

pub record NodeManager : Type 0 where
  pub nmid : ℤ
  pub new_node : NodeInfo
  pub state : StateType
  pub mode : NodeManagerMode
  pub nodes_table : Table NodeKey
  pub nodes_channel : Table Chan
  pub sync_msgs : List NodeMgmtMsg

-- NewNodeManager of both packages
unfoldable pub new_node_manager : ℤ → Table NodeKey → Table Chan → NodeManager
new_node_manager id nodes_table nodes_channel = record {
  nmid = id;
  new_node = empty_info;
  state = nm_inactive;
  mode = none_mode;
  nodes_table = nodes_table;
  nodes_channel = nodes_channel;
  sync_msgs = [];
}

unfoldable pub keyed : Text → Bytes → Option NodeKey → NodeKey
keyed name key none = record empty_key { name = name; sm4_key = key }
keyed name key (some nk) = record nk { sm4_key = key }

-- UpdateSm4Key
unfoldable pub update_sm4_key : Text → Bytes → NodeManager → NodeManager
unfolding keyed put find
update_sm4_key name key nm = record nm {
  nodes_table = put name (keyed name key (find name nm.nodes_table)) nm.nodes_table;
}

-- GetName
unfoldable pub get_name : NodeManager → Text
get_name nm = node_name nm.nmid

-- UpdateNewNodeInfo
unfoldable pub update_new_node_info : NodeManager → NodeManager
unfolding put remove
update_new_node_info nm =
    let n = nm.new_node in
    if nm.mode == join
    then record nm {
      nodes_channel = put n.name n.chan nm.nodes_channel;
      nodes_table = put n.name n.node_key nm.nodes_table;
    }
    else if nm.mode == exit
    then record nm {
      nodes_channel = remove n.name nm.nodes_channel;
      nodes_table = remove n.name nm.nodes_table;
    }
    else nm

-- ResetNodeManager
unfoldable pub reset_node_manager : NodeManager → NodeManager
reset_node_manager nm = record nm { new_node = empty_info; state = nm_inactive; mode = none_mode }

names : Table Chan → List Text
names [] = []
names ((k, c) ∷ t) = k ∷ names t

other_names : Text → Table Chan → List Text
other_names self [] = []
other_names self ((k, c) ∷ t) =
    let rest = other_names self t in if text_eq k self then rest else k ∷ rest

-- GetNodeNames, GetOtherNodeNames
unfoldable pub get_node_names : NodeManager → List Text
unfolding names
get_node_names nm = names nm.nodes_channel

unfoldable pub get_other_node_names : NodeManager → List Text
unfolding other_names
get_other_node_names nm = other_names (node_name nm.nmid) nm.nodes_channel
