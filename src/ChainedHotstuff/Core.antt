-- ===== src/ChainedHotstuff/Core.antt =====
-- core/chained_hotstuff.go: routing, requests, and the leader's, restart's and synchronisation's
-- operations.
use dcschain.Base.{
  ℕ, ◌+◌, ◌-◌, false, ◌&&◌, not, List, [], ◌∷◌, ◌++◌, map, Option, none, some, ℤ, pos, negsuc, ◌-ℤ◌,
  ◌==◌, if◌then◌else◌, Bytes, length, elems, replicate,
}
use dcschain.Common.View
use dcschain.Common.Name.{node_name}
use dcschain.Common.Encode.{HsNode, empty_hs_node}
use dcschain.Crypto.Merkle.{hash_from_byte_slices_iterative}
use dcschain.Blockchain.{Block, gen_empty_block, store_block}
use dcschain.Quorum.{threshold}
use dcschain.BasicHotstuff.Types.{
  new_view, generic, generic_vote, waiting, Proposal, empty_proposal, is_empty, gen_proposal_hash,
  client,
}
use dcschain.BasicHotstuff.State.{Env}
use dcschain.BasicHotstuff.Core.{BcRequest}
use dcschain.ChainedHotstuff.Types.{Four, four, ChainedQc, empty_chained_qc, CMsg, empty_c_msg}
use dcschain.ChainedHotstuff.State.{CHotstuff, send_ser_msg}
use dcschain.ChainedHotstuff.Rules.{get_node_name, is_leader}
use dcschain.ChainedHotstuff.Handlers.{
  CStep, c_handle_new_view, gen_proposal, c_handle_generic, c_handle_generic_vote,
}

-- RouteCMsg, a `switch` on the number of the message's type
unfoldable pub route_c_msg : Env → ℤ → CMsg → CHotstuff → Option CStep
route_c_msg env now m s =
    if m.m_type == new_view
    then c_handle_new_view env now m s
    else if m.m_type == generic
    then some (c_handle_generic env m s)
    else if m.m_type == generic_vote
    then c_handle_generic_vote env m s
    else some (s, [])

-- The message that tells the client of an executed view.
unfoldable pub client_msg : CHotstuff → CMsg
unfolding ◌-ℤ◌
client_msg s = record empty_c_msg {
  view_number = s.view.view_number -ℤ pos 1;
  send_node = get_node_name s;
  reci_node = client;
}

-- A proposal that is sent is remembered.
unfoldable pub remember : CMsg → CHotstuff → CHotstuff
remember m s = if m.m_type == generic then record s { cur_round_msg = some m } else s

-- After a new-view message the client is told of a stored block; Execute always succeeds.
unfoldable pub report_executed : CMsg → CHotstuff → CHotstuff
unfolding send_ser_msg client_msg
report_executed m s =
    if m.m_type == new_view
      && (s.execute_state && not (length (elems s.blocks.at3.blk_hdr.validation) == 0))
    then record (send_ser_msg (client_msg s) s) { execute_state = false }
    else s

-- One round of the loop of HandleCMsg over the answers.
unfoldable pub send_answer : CMsg → CHotstuff → CHotstuff
unfolding send_ser_msg remember report_executed get_node_name
send_answer r s =
    let m = record r { send_node = get_node_name s } in
    report_executed m (send_ser_msg m (remember m s))

unfoldable pub send_answers : List CMsg → CHotstuff → CHotstuff
unfolding send_answer
send_answers [] s = s
send_answers (r ∷ rs) s = send_answers rs (send_answer r s)

-- HandleCMsg; the payload is `none` where json refuses it, the result where the node panics
unfoldable pub handle_c_msg : Env → ℤ → Option CMsg → CHotstuff → Option CHotstuff
unfolding send_answers route_c_msg
handle_c_msg env now none s = some s
handle_c_msg env now (some m) s = elim (route_c_msg env now m s) [
  | none ↦ none
  | some r ↦ some (send_answers r.1 r.0)
]

-- The proposal of HandleReq.
unfoldable pub req_proposal : Env → ℤ → Bytes → List BcRequest → Proposal
unfolding hash_from_byte_slices_iterative
req_proposal env height pre_hash req =
    let commands = map (λ r. r.cmd) req in
    record empty_proposal {
      height = height;
      pre_blk_hash = pre_hash;
      root_hash = hash_from_byte_slices_iterative env.sum_sm3 commands;
      commands = some commands;
    }

unfoldable pub propose_req : CStep → CHotstuff
unfolding send_ser_msg
propose_req (s, []) = s
propose_req (s, m ∷ ms) = send_ser_msg m (record s { cur_round_msg = some m })

-- HandleReq
unfoldable pub handle_req : Env → ℤ → ℤ → Bytes → List BcRequest → CHotstuff → Option CHotstuff
unfolding req_proposal propose_req gen_proposal
handle_req env now height pre_hash req s =
    let t = record s { cur_proposal = req_proposal env height pre_hash req } in
    if s.cur_phase == waiting
    then elim (gen_proposal env now t) [ none ↦ none | some r ↦ some (propose_req r) ]
    else some s

unfoldable pub restart_logged : CStep → CStep
restart_logged (s, []) = (s, [])
restart_logged (s, m ∷ ms) = (record s { cur_round_msg = some m }, m ∷ [])

-- RestartChainedHotstuff
unfoldable pub restart : Env → ℤ → CHotstuff → Option CStep
unfolding restart_logged is_empty gen_proposal is_leader
restart env now s =
    if not (is_leader s)
    then some (s, [])
    else if is_empty s.cur_proposal
    then some (record s { cur_phase = waiting }, [])
    else elim (gen_proposal env now s) [ none ↦ none | some r ↦ some (restart_logged r) ]

-- The empty new-view message that a leader gives itself; only its first node is set.
unfoldable pub empty_new_view_msg : Env → CMsg
unfolding gen_proposal_hash
empty_new_view_msg env =
    let e = gen_proposal_hash env.sum_sm3 empty_proposal in
    let nodes : Four HsNode = record (four empty_hs_node) {
      at0 = record { cur_hash = e; parent_hash = e };
    } in
    record empty_c_msg {
      m_type = new_view;
      send_node = node_name (pos 0);
      reci_node = node_name (pos 0);
      hs_nodes = nodes;
      justify = record empty_chained_qc { view_number = negsuc 0; hs_nodes = nodes };
    }

-- InitLeader
unfoldable pub init_leader : Env → CHotstuff → CHotstuff
unfolding empty_new_view_msg
init_leader env s = record s {
  new_view_msgs =
      s.new_view_msgs ++ replicate (threshold s.view.nodes_num) (empty_new_view_msg env);
  cur_phase = waiting;
}

-- FixLeader; a negative count makes no round of its loop, as truncated `-` does
unfoldable pub fix_leader : Env → CHotstuff → CHotstuff
unfolding empty_new_view_msg
fix_leader env s =
    let count = threshold s.view.nodes_num + 1 - length s.new_view_msgs in
    record s { new_view_msgs = s.new_view_msgs ++ replicate count (empty_new_view_msg env) }

-- UpdateNodesNum
unfoldable pub update_nodes_num : ℕ → CHotstuff → CHotstuff
unfolding View.update_nodes_num
update_nodes_num n s = record s { view = View.update_nodes_num n s.view }

-- ClearCurrentRound
unfoldable pub clear_current_round : Env → CHotstuff → CHotstuff
unfolding gen_empty_block is_leader
clear_current_round env s =
    let t =
      if is_leader s then s else record s { cur_proposal = empty_proposal; new_view_msgs = [] } in
    record t {
      cur_round_msg = some empty_c_msg;
      blk_store = gen_empty_block env.sum_sm3 t.blk_store;
      cur_phase = new_view;
    }

-- NewRound
unfoldable pub new_round : CHotstuff → CHotstuff
unfolding View.next_view
new_round s = record s {
  view = View.next_view s.view;
  cur_round_msg = some empty_c_msg;
  new_view_msgs = [];
  generic_vote_msgs = [];
}

-- CSyncInfo
unfoldable pub c_sync_info : CMsg → ℤ → CHotstuff → CHotstuff
unfolding new_round store_block View.update_view
c_sync_info m leader s =
    let t = new_round (record s {
      generic_qc = m.justify;
      hs_nodes = m.hs_nodes;
      blk_store =
          store_block
            (record (s.blk_store) { cur_proposal_blk = m.blk; height = s.cur_proposal.height })
            m.blk;
    }) in
    record t { view = View.update_view m.view_number leader t.view }

-- What the synchronisation of this protocol writes to and reads from mgmt.NodeMgmtMsg.
pub record SyncMsg : Type 0 where
  pub view_number : ℤ
  pub leader : ℤ
  pub hs_nodes : List HsNode
  pub c_justify : ChainedQc
  pub block : List Block

-- AddSyncInfo
unfoldable pub add_sync_info : CHotstuff → SyncMsg → SyncMsg
add_sync_info s m = record {
  view_number = s.view.view_number;
  leader = s.view.leader;
  hs_nodes = m.hs_nodes ++ (s.hs_nodes.at0 ∷ s.hs_nodes.at1 ∷ s.hs_nodes.at2 ∷ s.hs_nodes.at3 ∷ []);
  c_justify = s.generic_qc;
  block = m.block ++ (s.blocks.at0 ∷ s.blocks.at1 ∷ s.blocks.at2 ∷ s.blocks.at3 ∷ []);
}

-- The four elements of a slice, where it has that length.
unfoldable pub as_four : {A : Type 0} → List A → Option (Four A)
as_four (a ∷ b ∷ c ∷ d ∷ []) = some (record { at0 = a; at1 = b; at2 = c; at3 = d })
as_four _ = none

-- SyncInfo, once the lengths have been tested
unfoldable pub take_sync_info :
    SyncMsg → ℤ → Option (Four Block) → Option (Four HsNode) → CHotstuff → CHotstuff
unfolding new_round View.update_view
take_sync_info m leader (some bs) (some ns) s =
    let t = new_round (record s { blocks = bs; hs_nodes = ns; generic_qc = m.c_justify }) in
    record t { view = View.update_view m.view_number leader t.view }
take_sync_info m leader none ns s = s
take_sync_info m leader (some bs) none s = s

-- SyncInfo
unfoldable pub sync_info : SyncMsg → ℤ → CHotstuff → CHotstuff
unfolding take_sync_info as_four
sync_info m leader s = take_sync_info m leader (as_four m.block) (as_four m.hs_nodes) s
