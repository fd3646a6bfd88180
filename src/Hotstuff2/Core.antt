-- ===== src/Hotstuff2/Core.antt =====
-- core/hotstuff_2.go: routing, requests, restart and synchronisation.
use dcschain.Base.{
  ℕ, true, ◌||◌, not, List, [], ◌∷◌, ◌++◌, map, Option, none, some, ℤ, pos, ◌-ℤ◌, ◌==◌,
  if◌then◌else◌, Bytes, length, text_eq,
}
use dcschain.Common.View
use dcschain.Common.Encode.{HsNode}
use dcschain.Crypto.Merkle.{hash_from_byte_slices_iterative}
use dcschain.Blockchain.{Block}
use dcschain.BasicHotstuff.Types.{client}
use dcschain.BasicHotstuff.State.{Env}
use dcschain.BasicHotstuff.Core.{BcRequest}
use dcschain.Hotstuff2.Types.{
  new_propose, propose, enter, QuromCert, Proposal, empty_proposal, is_empty, H2Msg, empty_h2_msg,
}
use dcschain.Hotstuff2.State.{Hotstuff2, send_ser_msg, get_node_name, get_leader_name}
use dcschain.Hotstuff2.Handlers.{
  HStep, handle_wish, handle_new_view, handle_optimistic_enter, handle_tc, gen_proposal,
  handle_propose, handle_vote1, handle_prepare, handle_vote2, new_round,
}

-- RouteH2Msg, a `switch` on the number of the message's type
unfoldable pub route_h2_msg : Env → ℤ → H2Msg → Hotstuff2 → Option HStep
unfolding gen_proposal handle_propose
route_h2_msg env now m s =
    let t = m.m_type in
    if t == 0
    then some (handle_new_view env m s)
    else if t == 1
    then gen_proposal env now m s
    else if t == 2
    then handle_propose env m s
    else if t == 3
    then some (handle_vote1 env m s)
    else if t == 4
    then some (handle_prepare env m s)
    else if t == 5
    then some (handle_vote2 env m s)
    else if t == 6
    then some (handle_wish env m s)
    else if t == 7
    then some (handle_tc env m s)
    else if t == 8
    then some (handle_optimistic_enter env m s)
    else some (s, none)

-- The message that tells the client of an executed view.
unfoldable pub client_msg : Hotstuff2 → H2Msg
unfolding get_node_name ◌-ℤ◌
client_msg s = record empty_h2_msg {
  view_number = s.view.view_number -ℤ pos 1;
  send_node = get_node_name s;
  reci_node = client;
}

-- HandleH2Msg on the message that RouteH2Msg answers
unfoldable pub send_answer : H2Msg → Hotstuff2 → Hotstuff2
unfolding send_ser_msg client_msg get_node_name
send_answer r s =
    let m = record r { send_node = get_node_name s } in
    let t = record s { cur_round_msgs = s.cur_round_msgs ++ (m ∷ []) } in
    send_ser_msg m (if m.m_type == enter then send_ser_msg (client_msg t) t else t)

unfoldable pub answer : HStep → Hotstuff2
unfolding send_answer
answer (s, none) = s
answer (s, some r) = send_answer r s

-- A payload that json refuses leaves the zero message.
unfoldable pub payload_msg : Option H2Msg → H2Msg
payload_msg none = empty_h2_msg
payload_msg (some m) = m

-- HandleH2Msg; a panic is `none`
unfoldable pub handle_h2_msg : Env → ℤ → Option H2Msg → Hotstuff2 → Option Hotstuff2
unfolding answer route_h2_msg payload_msg
handle_h2_msg env now payload s = elim (route_h2_msg env now (payload_msg payload) s) [
  | none ↦ none
  | some r ↦ some (answer r)
]

-- The proposal of HandleReq.
unfoldable pub req_proposal : Env → ℤ → Bytes → List BcRequest → Proposal
unfolding hash_from_byte_slices_iterative
req_proposal env height pre_hash req =
    let commands = map (λ r. r.cmd) req in
    record empty_proposal {
      height = height;
      pre_blk_hash = pre_hash;
      root_hash = hash_from_byte_slices_iterative env.sum_sm3 commands;
      command = some commands;
    }

unfoldable pub propose_req : HStep → Hotstuff2
unfolding send_ser_msg
propose_req (s, none) = s
propose_req (s, some m) = send_ser_msg m (record s { cur_phase = propose })

-- HandleReq
unfoldable pub handle_req : Env → ℤ → ℤ → Bytes → List BcRequest → Hotstuff2 → Option Hotstuff2
unfolding req_proposal propose_req gen_proposal get_node_name
handle_req env now height pre_hash req s =
    let t = record s { cur_proposal = req_proposal env height pre_hash req } in
    let m = record empty_h2_msg { m_type = new_propose; send_node = get_node_name t } in
    if t.cur_phase == new_propose
    then elim (gen_proposal env now m t) [ none ↦ none | some r ↦ some (propose_req r) ]
    else some t

restart_logged : HStep → HStep
restart_logged (s, none) = (s, none)
restart_logged (s, some m) = (record s { cur_round_msgs = s.cur_round_msgs ++ (m ∷ []) }, some m)

-- RestartHotstuff2
unfoldable pub restart : Env → ℤ → Hotstuff2 → Option HStep
unfolding restart_logged is_empty gen_proposal
restart env now s =
    let m = record empty_h2_msg { m_type = new_propose } in
    if not (text_eq (get_leader_name s) (get_node_name s)) || is_empty s.cur_proposal
    then some (s, none)
    else elim (gen_proposal env now m s) [ none ↦ none | some r ↦ some (restart_logged r) ]

-- InitLeader
unfoldable pub init_leader : Hotstuff2 → Hotstuff2
init_leader s = record s { cur_phase = new_propose }

-- UpdateNodesNum
unfoldable pub update_nodes_num : ℕ → Hotstuff2 → Hotstuff2
unfolding View.update_nodes_num
update_nodes_num n s = record s { view = View.update_nodes_num n s.view }

-- What the synchronisation of this protocol writes to and reads from mgmt.NodeMgmtMsg.
pub record SyncMsg : Type 0 where
  pub view_number : ℤ
  pub leader : ℤ
  pub hs_nodes : List HsNode
  pub h2_justify : QuromCert
  pub block : List Block

-- AddSyncInfo
unfoldable pub add_sync_info : Hotstuff2 → SyncMsg → SyncMsg
add_sync_info s m = record {
  view_number = s.view.view_number;
  leader = s.view.leader;
  hs_nodes = (m.hs_nodes ++ (s.cur_hs2_node ∷ [])) ++ s.lock_hs2_node;
  h2_justify = s.prepare_qc;
  block = m.block ++ s.lock_blk;
}

last_height : List Block → ℤ → ℤ
last_height [] h = h
last_height (b ∷ []) h = b.blk_hdr.height
last_height (b ∷ c ∷ bs) h = last_height (c ∷ bs) h

-- SyncInfo; its last block is there, since the message has one
unfoldable pub sync_info : SyncMsg → ℤ → Hotstuff2 → Hotstuff2
unfolding new_round View.update_view last_height
sync_info m leader s =
    let blks = s.lock_blk ++ m.block in
    let t = new_round (record s {
      lock_blk = blks;
      prepare_qc = m.h2_justify;
      lock_hs2_node = m.hs_nodes;
      blk_store = record (s.blk_store) { height = last_height blks s.blk_store.height };
      ignore_check_qc = true;
    }) in
    if length m.block == 0 || length m.hs_nodes == 0
    then s
    else record t { view = View.update_view m.view_number leader t.view }
