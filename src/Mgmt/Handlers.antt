-- ===== src/Mgmt/Handlers.antt =====
-- mps/basic/handler.go: the messages of a node that joins or leaves, and the choice of what the new
-- node takes over.
use dcschain.Base.{
  ℕ, suc, ◌+◌, List, [], ◌∷◌, ◌++◌, Option, none, some, ℤ, negsuc, ltb_ℤ, eq_ℤ, Text, codes, find,
  Bool, if◌then◌else◌, ◌==◌, ◌||◌, leb, ltb, length,
}
use dcschain.Quorum.{threshold}
use dcschain.Mgmt.Types.{
  Chan, nm_inactive, nm_sync, nm_agree, nm_restart, join, exit, NodeMgmtMsg, empty_mgmt_msg,
}
use dcschain.Mgmt.Manager.{NodeManager, get_name}

abbrev pub gossip : Text
gossip = codes "Gossip"

-- A channel that a missing name reads as.
abbrev pub chan_of : Option Chan → Chan
chan_of none = none
chan_of (some c) = c

-- HandleJoin, HandleExit
unfoldable pub handle_join : NodeMgmtMsg → NodeManager → NodeManager × NodeMgmtMsg
handle_join m nm = (
  record nm {
    new_node = record (nm.new_node) { name = m.send_node; node_key = m.node_key };
    mode = join;
  },
  record empty_mgmt_msg { m_type = join; nm_type = nm_sync; reci_node = m.send_node },
)

unfoldable pub handle_exit : NodeMgmtMsg → NodeManager → NodeManager × NodeMgmtMsg
unfolding find get_name
handle_exit m nm = (
  record nm {
    new_node = record (nm.new_node) {
      name = m.send_node;
      chan = chan_of (find m.send_node nm.nodes_channel);
    };
    mode = exit;
  },
  record empty_mgmt_msg {
    m_type = exit;
    nm_type = nm_agree;
    send_node = get_name nm;
    reci_node = m.send_node;
  },
)

-- The loop of GetHighQCIndex from index `i` on, with what it has found so far.
unfoldable pub high_qc_loop : List NodeMgmtMsg → ℕ → ℕ → ℤ → ℕ
high_qc_loop [] i max_index max_view = max_index
high_qc_loop (m ∷ ms) i max_index max_view =
    let higher = ltb_ℤ max_view m.justify.view_number in
    high_qc_loop ms (suc i) (if higher then i else max_index)
      (if higher then m.view_number else max_view)

-- GetHighQCIndex; `none` is its panic on no message
unfoldable pub get_high_qc_index : List NodeMgmtMsg → Option ℕ
unfolding high_qc_loop
get_high_qc_index [] = none
get_high_qc_index (m ∷ ms) = some (high_qc_loop (m ∷ ms) 0 0 m.justify.view_number)

-- The entry of the map `leaders` for `l`.
unfoldable pub leader_count : ℤ → List NodeMgmtMsg → ℕ
leader_count l [] = 0
leader_count l (m ∷ ms) = let c = leader_count l ms in if eq_ℤ m.leader l then c + 1 else c

-- The second loop of GetLeaderFromSyncMsgs, over the keys of its map in the order `order`.
unfoldable pub leader_loop : ℕ → List NodeMgmtMsg → List ℤ → ℤ
unfolding leader_count
leader_loop t ms [] = negsuc 0
leader_loop t ms (l ∷ ls) =
    let rest = leader_loop t ms ls in if ltb t (leader_count l ms) then l else rest

-- GetLeaderFromSyncMsgs
unfoldable pub get_leader_from_sync_msgs : List ℤ → List NodeMgmtMsg → NodeManager → ℤ
unfolding leader_loop
get_leader_from_sync_msgs order ms nm = leader_loop (threshold (length nm.nodes_table)) ms order

-- Fewer messages than are needed, or a node that is done or takes no part.
settled : NodeManager → ℕ → Bool
settled nm done = nm.state == done || nm.state == nm_inactive

-- HandleSync; the outer `none` is the panic of GetHighQCIndex, the inner its answer of -1 and nil
unfoldable pub handle_sync :
    NodeMgmtMsg → NodeManager → Option (NodeManager × Option (ℕ × NodeMgmtMsg))
unfolding get_high_qc_index settled
handle_sync m nm =
    let t = record nm { sync_msgs = nm.sync_msgs ++ (m ∷ []) } in
    let r = record empty_mgmt_msg {
      m_type = join;
      nm_type = nm_restart;
      send_node = nm.new_node.name;
      reci_node = gossip;
    } in
    if leb (length t.sync_msgs) (threshold (length t.nodes_table))
    then some (t, none)
    else if settled t nm_sync
    then some (t, none)
    else elim (get_high_qc_index t.sync_msgs) [
      | none ↦ none
      | some i ↦ some (record t { state = nm_sync }, some (i, r))
    ]

-- HandleAgree
unfoldable pub handle_agree : NodeMgmtMsg → NodeManager → NodeManager × Option NodeMgmtMsg
unfolding settled get_name
handle_agree m nm =
    let t = record nm { sync_msgs = nm.sync_msgs ++ (m ∷ []) } in
    let r = record empty_mgmt_msg {
      m_type = exit;
      nm_type = nm_restart;
      send_node = get_name nm;
      reci_node = gossip;
    } in
    if leb (length t.sync_msgs) (threshold (length t.nodes_table))
    then (t, none)
    else if settled t nm_agree
    then (t, none)
    else (record t { state = nm_agree }, some r)
