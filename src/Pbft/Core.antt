-- ===== src/Pbft/Core.antt =====
-- core/pbft.go (RoutePMsg, HandlePMsg, AddSyncInfo, SyncInfo, UpdateNodesNum): a replica's routing and
-- synchronisation. What a goroutine sends stands where its statement does.
use dcschain.Base.{
  ℕ, ◌&&◌, not, List, [], ◌∷◌, ◌++◌, Option, none, some, ℤ, pos, ◌+ℤ◌, ◌-ℤ◌, ◌%ℤ◌, ltb_ℤ, eq_ℤ,
  ◌==◌, if◌then◌else◌, Bytes, to_byte,
}
use dcschain.Common.View
use dcschain.Common.Encode.{HsNode}
use dcschain.Blockchain.{Block, store_block}
use dcschain.BasicHotstuff.Types.{client}
use dcschain.Pbft.Types.{
  checkpoint, reply, vc_reply, waiting, checkpoint_num, empty_head, PMsg, PMsgs, nil, cons, plain,
}
use dcschain.Pbft.State.{Env, Pbft, is_leader, get_node_name, send_ser_msg, reset_viewchange_msgs}
use dcschain.Pbft.Commit.{Step, propose}
use dcschain.Pbft.Normal.{handle_pre_prepare_msg, handle_prepare_msg, handle_commit_msg}
use dcschain.Pbft.Checkpoint.{handle_check_point}
use dcschain.Pbft.NewView.{handle_view_change_msg}
use dcschain.Pbft.Redo.{handle_new_view_msg, handle_vc_prepare_msg, handle_vc_commit_msg}

-- RoutePMsg; `none` is a panic
unfoldable pub route_p_msg : Env → PMsg → Pbft → Option Step
route_p_msg env m p =
    let t = m.head.m_type in
    if t == 0
    then handle_new_view_msg env m p
    else if t == 1
    then some (handle_pre_prepare_msg env m p)
    else if t == 2
    then some (handle_prepare_msg env m p)
    else if t == 3
    then some (handle_commit_msg env m p)
    else if t == 4
    then some (p, none)
    else if t == 5
    then handle_view_change_msg env m p
    else if t == 6
    then some (handle_check_point env m p, none)
    else if t == 7
    then some (handle_vc_prepare_msg env m p)
    else if t == 8
    then some (handle_vc_commit_msg env m p)
    else some (p, none)

abbrev pub as_sender : Pbft → PMsg → PMsg
as_sender p r = record r { head = record (r.head) { send_node = get_node_name p } }

sent_named : Step → Pbft
unfolding send_ser_msg
sent_named (p, none) = p
sent_named (p, some m) = send_ser_msg (as_sender p m) p

-- The message that tells the client of an executed view.
abbrev pub client_msg : Pbft → PMsg
client_msg p = plain (record empty_head {
  view_number = p.view.view_number -ℤ pos 1;
  send_node = get_node_name p;
  reci_node = client;
})

send_first : List PMsg → Pbft → Pbft
unfolding send_ser_msg
send_first [] p = p
send_first (m ∷ ms) p = send_ser_msg m p

-- HandlePMsg on a reply; Execute always succeeds
unfoldable pub replied : Env → ℤ → PMsg → Pbft → Pbft
unfolding send_ser_msg propose sent_named send_first is_leader ◌+ℤ◌ ◌%ℤ◌
replied env now r p =
    let q = send_ser_msg (client_msg p) p in
    let w = if q.cur_phase == checkpoint then q else record q { cur_phase = waiting } in
    let t = if is_leader q then sent_named (propose env now w) else q in
    if eq_ℤ ((r.head.seq_num +ℤ pos 1) %ℤ checkpoint_num) (pos 0)
    then send_first (t.check_point.cp_msgs_buffer r.head.seq_num) t
    else t

-- HandlePMsg at the end of a view change
unfoldable pub restarted : Env → ℤ → Pbft → Pbft
unfolding reset_viewchange_msgs propose sent_named is_leader
restarted env now p =
    let q = reset_viewchange_msgs p in
    if is_leader q then sent_named (propose env now (record q { cur_phase = waiting })) else q

-- HandlePMsg on an answer with replies in OSet looks them up in the first view-change message.
redone : Env → ℤ → PMsgs → List PMsg → Pbft → Option Pbft
unfolding restarted
redone env now nil vs p = some (restarted env now p)
redone env now (cons h ps cs vs os ms) [] p = none
redone env now (cons h ps cs vs os ms) (v ∷ ws) p = some (restarted env now p)

unfoldable pub p_answer : Env → ℤ → Step → Option Pbft
unfolding replied redone sent_named
p_answer env now (p, none) = some p
p_answer env now (p, some r) =
    if r.head.m_type == reply
    then some (replied env now r p)
    else if r.head.m_type == vc_reply
    then redone env now r.o_set p.view_change_msgs.new_view_msgs p
    else some (sent_named (p, some r))

-- HandlePMsg on what json makes of the payload; `none` is a panic
unfoldable pub handle_p_msg : Env → ℤ → PMsg → Pbft → Option Pbft
unfolding route_p_msg p_answer
handle_p_msg env now m p =
    if ltb_ℤ m.head.view_number p.view.view_number && not (m.head.m_type == checkpoint)
    then some p
    else elim (route_p_msg env m p) [ none ↦ none | some r ↦ p_answer env now r ]

-- UpdateNodesNum
unfoldable pub update_nodes_num : ℕ → Pbft → Pbft
unfolding View.update_nodes_num
update_nodes_num n p = record p { view = View.update_nodes_num n p.view }

-- What the two functions below write to and read from mgmt.NodeMgmtMsg.
pub record SyncMsg : Type 0 where
  pub view_number : ℤ
  pub leader : ℤ
  pub hs_nodes : List HsNode
  pub block : List Block

-- AddSyncInfo; `pk` is the public key of the signer
unfoldable pub add_sync_info : Bytes → Pbft → SyncMsg → SyncMsg
unfolding to_byte
add_sync_info pk p m = record {
  view_number = p.view.view_number;
  leader = p.view.leader;
  block = m.block ++ (p.blk_store.cur_proposal_blk ∷ []);
  hs_nodes =
      m.hs_nodes
      ++ (record { cur_hash = some (to_byte p.sequence_num ∷ []); parent_hash = pk } ∷ []);
}

-- The first byte of the first node's hash, where both are there.
unfoldable pub first_byte : List HsNode → Option ℕ
first_byte [] = none
first_byte (n ∷ ns) = elim n.cur_hash [
  | none ↦ none
  | some bs ↦ elim bs [ [] ↦ none | b ∷ cs ↦ some b ]
]

-- SyncInfo but for the signer's table of keys; `none` is the panic on what the message lacks
unfoldable pub sync_info : SyncMsg → ℤ → Pbft → Option Pbft
unfolding first_byte store_block View.update_view
sync_info m leader p = elim m.block [
  | [] ↦ none
  | b ∷ bs ↦ elim (first_byte m.hs_nodes) [
    | none ↦ none
    | some n ↦ some (record p {
      sequence_num = pos n;
      blk_store =
          store_block (record (p.blk_store) { cur_proposal_blk = b; height = b.blk_data.height }) b;
      view = View.update_view m.view_number leader p.view;
    })
  ]
]
