-- ===== src/BasicHotstuff/Core.antt =====
-- core/basic_hotstuff.go: routing, requests, and the leader's and the restart's operations.
use dcschain.Base.{
  ℕ, ◌+◌, ◌-◌, true, ◌&&◌, not, List, [], ◌∷◌, ◌++◌, map, Option, none, some, ℤ, pos, ◌-ℤ◌, ◌==◌,
  eq_ℤ, if◌then◌else◌, Bytes, Text, length, replicate, ◌*◌,
}
use dcschain.Common.View
use dcschain.Common.Name.{node_name}
use dcschain.Crypto.Merkle.{empty_hash, hash_from_byte_slices_iterative}
use dcschain.Blockchain.{gen_empty_block}
use dcschain.Quorum.{threshold}
use dcschain.BasicHotstuff.Types.{
  new_view, waiting, empty_qc, Proposal, empty_proposal, is_empty, Msg, empty_msg, client,
}
use dcschain.BasicHotstuff.State.{Env, BcHotstuff, send_ser_msg}
use dcschain.BasicHotstuff.Rules.{get_node_name, is_leader}
use dcschain.BasicHotstuff.Handlers.{
  Step, handle_new_view, gen_proposal, handle_prepare, handle_prepare_vote, handle_pre_commit,
  handle_pre_commit_vote, handle_commit, handle_commit_vote, handle_decide, start_view_change,
}

-- RouteBMsg, a `switch` on the number of the message's type
unfoldable pub route_b_msg : Env → ℤ → Msg → BcHotstuff → Option Step
route_b_msg env now m s =
    let t = m.m_type in
    if t == 0
    then handle_new_view env now m s
    else if t == 1
    then some (handle_prepare env m s)
    else if t == 2
    then some (handle_prepare_vote env m s)
    else if t == 3
    then some (handle_pre_commit env m s)
    else if t == 4
    then some (handle_pre_commit_vote env m s)
    else if t == 5
    then some (handle_commit env m s)
    else if t == 6
    then some (handle_commit_vote env m s)
    else if t == 7
    then some (handle_decide env m s)
    else some (s, none)

-- UpdateBasicHotstuff
unfoldable pub update_basic_hotstuff : BcHotstuff → BcHotstuff
update_basic_hotstuff s = record s {
  cur_phase = new_view;
  last_proposal = s.cur_proposal;
  cur_proposal = empty_proposal;
}

-- The message that tells the client of an executed view.
abbrev pub client_msg : BcHotstuff → Msg
client_msg s = record empty_msg {
  view_number = s.view.view_number -ℤ pos 1;
  hs_node = s.hs_node;
  send_node = get_node_name s;
  reci_node = client;
}

-- An answer under the name of its sender.
abbrev pub signed_by : BcHotstuff → Msg → Msg
signed_by s r = record r { send_node = get_node_name s }

-- HandleBMsg on the message that RouteBMsg answers; Execute always succeeds.
unfoldable pub send_answer : Msg → BcHotstuff → BcHotstuff
unfolding send_ser_msg update_basic_hotstuff
send_answer r s =
    let m = signed_by s r in
    let t = send_ser_msg m (record s { cur_round_msg = s.cur_round_msg ++ (m ∷ []) }) in
    if m.m_type == new_view && not (is_empty t.cur_proposal)
    then update_basic_hotstuff (send_ser_msg (client_msg t) t)
    else t

unfoldable pub answer : Step → BcHotstuff
unfolding send_answer
answer (s, none) = s
answer (s, some r) = send_answer r s

-- HandleBMsg; the payload is `none` where json refuses it, the result where the node panics
unfoldable pub handle_b_msg : Env → ℤ → Option Msg → BcHotstuff → Option BcHotstuff
unfolding answer route_b_msg
handle_b_msg env now none s = some s
handle_b_msg env now (some m) s = elim (route_b_msg env now m s) [
  | none ↦ none
  | some r ↦ some (answer r)
]

-- bcrequest.BCRequest
pub record BcRequest : Type 0 where
  pub id : Text
  pub cmd : Bytes
  pub sign : Bytes

-- The proposal of HandleReq.
unfoldable pub req_proposal : Env → ℤ → Bytes → List BcRequest → Proposal
unfolding hash_from_byte_slices_iterative
req_proposal env height pre_hash req =
    let commands = map (λ r. r.cmd) req in
    record {
      height = height;
      pre_blk_hash = pre_hash;
      root_hash = hash_from_byte_slices_iterative env.sum_sm3 commands;
      commands = some commands;
      signs = some (map (λ r. r.sign) req);
      qc = empty_qc;
    }

unfoldable pub propose_req : Step → BcHotstuff
unfolding send_ser_msg
propose_req (s, none) = s
propose_req (s, some m) = send_ser_msg m (record s { cur_round_msg = s.cur_round_msg ++ (m ∷ []) })

-- HandleReq
unfoldable pub handle_req : Env → ℤ → ℤ → Bytes → List BcRequest → BcHotstuff → Option BcHotstuff
unfolding req_proposal propose_req
handle_req env now height pre_hash req s =
    let t = record s { cur_proposal = req_proposal env height pre_hash req } in
    if t.cur_phase == waiting
    then elim (gen_proposal env now t) [ none ↦ none | some r ↦ some (propose_req r) ]
    else some t

-- UpdateNodesNum
unfoldable pub update_nodes_num : ℕ → BcHotstuff → BcHotstuff
unfolding View.update_nodes_num
update_nodes_num n s = record s { view = View.update_nodes_num n s.view }

-- ClearCurrentRound
unfoldable pub clear_current_round : Env → BcHotstuff → BcHotstuff
unfolding gen_empty_block
clear_current_round env s =
    let t =
      if is_leader s then s else record s { cur_proposal = empty_proposal; new_view_msgs = [] } in
    record t {
      cur_round_msg = [];
      prepare_votes = [];
      pre_commit_votes = [];
      commit_votes = [];
      blk_store = gen_empty_block env.sum_sm3 t.blk_store;
      cur_phase = new_view;
    }

-- The empty new-view message that a leader gives itself in view 0.
unfoldable pub empty_new_view_msg : Env → Msg
unfolding empty_hash
empty_new_view_msg env =
    let e = empty_hash env.sum_sm3 in
    record empty_msg {
      m_type = new_view;
      send_node = node_name (pos 0);
      hs_node = record { cur_hash = e; parent_hash = e };
    }

-- InitLeader
unfoldable pub init_leader : Env → BcHotstuff → BcHotstuff
unfolding empty_new_view_msg
init_leader env s =
    let m =
      if eq_ℤ s.view.view_number (pos 0)
      then empty_new_view_msg env
      else record (empty_new_view_msg env) {
        view_number = s.view.view_number -ℤ pos 1;
        send_node = get_node_name s;
        justify = s.prepare_qc;
      } in
    record s {
      cur_phase = waiting;
      ignore_check_qc = true;
      new_view_msgs = s.new_view_msgs ++ (m ∷ []);
    }

-- FixLeader; a negative count makes no round of its loop, as truncated `-` does
unfoldable pub fix_leader : Env → BcHotstuff → BcHotstuff
unfolding empty_new_view_msg
fix_leader env s =
    let count = threshold s.view.nodes_num + 1 - length s.new_view_msgs in
    record s { new_view_msgs = s.new_view_msgs ++ replicate count (empty_new_view_msg env) }

restart_logged : Step → Step
restart_logged (s, none) = (s, none)
restart_logged (s, some m) = (record s { cur_round_msg = s.cur_round_msg ++ (m ∷ []) }, some m)

-- RestartBasicHotstuff
unfoldable pub restart : Env → ℤ → BcHotstuff → Option Step
unfolding restart_logged is_empty
restart env now s =
    if not (is_leader s)
    then some (s, none)
    else if is_empty s.cur_proposal
    then some (record s { cur_phase = waiting }, none)
    else elim (gen_proposal env now s) [ none ↦ none | some r ↦ some (restart_logged r) ]

-- What happens to a running replica: a message, a batch of requests, the view timer's expiry.
pub data Event : Type 0 where
  deliver : (now : ℤ) → Option Msg → Event
  request : (now height : ℤ) → Bytes → List BcRequest → Event
  timeout : Event

-- The expiry of timer.go around StartViewChange: the duration is doubled at its end. A stopped timer
-- does not expire.
unfoldable pub expire_view_timer : Env → BcHotstuff → BcHotstuff
expire_view_timer env s =
    let t =
      start_view_change env
        (record s { view_timer = record (s.view_timer) { is_stopped = true } }) in
    if s.view_timer.is_stopped
    then s
    else record t { view_timer = record (t.view_timer) { duration = t.view_timer.duration * 2 } }

unfoldable pub step : Env → Event → BcHotstuff → Option BcHotstuff
unfolding expire_view_timer handle_b_msg handle_req
step env (deliver now payload) s = handle_b_msg env now payload s
step env (request now height pre_hash req) s = handle_req env now height pre_hash req s
step env timeout s = some (expire_view_timer env s)

-- A replica over a sequence of events; `none` once it has panicked.
unfoldable pub run : Env → List Event → BcHotstuff → Option BcHotstuff
run env [] s = some s
run env (e ∷ es) s = elim (step env e s) [ none ↦ none | some t ↦ run env es t ]
