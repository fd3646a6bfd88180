-- ===== src/Server/Core.antt =====
-- core/server/server.go (RouteServerMsg), join.go and exit.go: what happens to a running server.
use dcschain.Base.{
  ℕ, Bool, List, [], ◌∷◌, none, some, ℤ, Text, text_eq, Bytes, Table, find, if◌then◌else◌, ◌==◌,
}
use dcschain.Mgmt.Types.{NodeKey, Chan, nm_apply, join, exit, NodeMgmtMsg, empty_mgmt_msg}
use dcschain.Orderer.Core.{handle_msg}
use dcschain.Server.Outcome.{Outcome, done, ◌>>=◌}
use dcschain.Server.State.{Env, Server, ServerMsg, request, nodemgmt, order}
use dcschain.Server.Send.{send_msg, go_send_mgmt}
use dcschain.Server.Requests.{or_panic, req_round, validate_and_handle_req}
use dcschain.Server.Manager.{Choices, stop_server, handle_node_manager_msg}

-- SubmitMsg2Consensus
unfoldable pub submit_to_consensus : Env → ℤ → List ℕ → Server → Outcome Server
unfolding handle_msg
submit_to_consensus env now payload s = do
  o ← or_panic (handle_msg env.cons env.codec now payload s.orderer)
  done (record s { orderer = o })

-- The public key that RouteServerMsg checks a message with.
unfoldable pub key_of : Text → Server → Bytes
unfolding find
key_of name s = elim (find name s.node_manager.nodes_table) [ none ↦ none | some k ↦ k.sm2_pub_key ]

unfoldable pub is_signed : Env → ServerMsg → Server → Bool
unfolding key_of
is_signed env m s = env.sm2_verify m.sign (key_of m.send_server s) (env.sum_sm3 m.payload)

-- The `switch` of RouteServerMsg on the type of a message.
unfoldable pub dispatch : Env → Choices → ServerMsg → Server → Outcome Server
unfolding submit_to_consensus handle_node_manager_msg validate_and_handle_req
dispatch env ch m s =
    if m.s_type == request
    then validate_and_handle_req env ch.now (env.to_req m.payload) s
    else if m.s_type == nodemgmt
    then handle_node_manager_msg env ch m.payload s
    else if m.s_type == order
    then submit_to_consensus env ch.now m.payload s
    else done s

-- RouteServerMsg on what arrives: a wrong signature is logged, and the message is handled all the
-- same
unfoldable pub route_server_msg : Env → Choices → List ℕ → Server → Outcome Server
unfolding is_signed dispatch
route_server_msg env ch json s = elim (env.to_server json) [
  | none ↦ done s
  | some m ↦ if is_signed env m s then dispatch env ch m s else dispatch env ch m s
]

unfoldable pub apply_all : Env → Text → (NodeKey → NodeMgmtMsg) → Table NodeKey → Server → Server
unfolding go_send_mgmt
apply_all env self f [] s = s
apply_all env self f ((name, k) ∷ t) s =
    apply_all env self f t (if text_eq k.name self then s else go_send_mgmt env (f k) s)

-- What a new node sends to the node with the key `k`.
unfoldable pub application : Server → NodeKey → NodeMgmtMsg
application s k = record empty_mgmt_msg {
  m_type = join;
  nm_type = nm_apply;
  node_key = record {
    name = s.node_manager.new_node.name;
    sm2_pub_key = s.pub_key;
    sm4_key = k.sm4_key;
  };
  send_node = s.name;
  reci_node = k.name;
}

-- StartBCNodeJoin on the new node
unfoldable pub start_join : Env → Server → Server
unfolding apply_all application
start_join env s =
    let t = record s { node_manager = record (s.node_manager) { mode = join } } in
    let u = apply_all env s.name (λ k. application s k) s.node_manager.nodes_table t in
    record u { node_manager = record (u.node_manager) { state = nm_apply } }

-- StartBCNodeJoin on the other nodes, which are given the channel of the new one
unfoldable pub announce : Chan → Server → Server
announce c s = record s {
  node_manager = record (s.node_manager) {
    new_node = record (s.node_manager.new_node) { chan = c };
  };
}

stop_at_self : Text → Table NodeKey → Server → Server
unfolding stop_server
stop_at_self self [] s = s
stop_at_self self ((name, k) ∷ t) s =
    stop_at_self self t (if text_eq k.name self then stop_server s else s)

-- StartBCNodeExit; `now` is the time that its messages carry. The orderer stops where the loop
-- meets the node itself, which the messages do not depend on.
unfoldable pub start_exit : Env → ℤ → Server → Server
unfolding apply_all stop_at_self
start_exit env now s =
    let t = record s { node_manager = record (s.node_manager) { mode = exit } } in
    let f = λ (k : NodeKey). record empty_mgmt_msg {
      m_type = exit;
      nm_type = nm_apply;
      leader = now;
      send_node = s.name;
      reci_node = k.name;
    } in
    let nodes = s.node_manager.nodes_table in
    let u = apply_all env s.name f nodes (stop_at_self s.name nodes t) in
    record u { node_manager = record (u.node_manager) { state = nm_apply } }

-- What happens to a server: something arrives, the consensus hands it a message to send, a flag for
-- HandleReq.
pub data Event : Type 0 where
  arrives : Choices → List ℕ → Event
  forward : ServerMsg → Event
  flag : (now : ℤ) → Event

unfoldable pub step : Env → Event → Server → Outcome Server
unfolding route_server_msg send_msg req_round
step env (arrives ch json) s = route_server_msg env ch json s
step env (forward m) s = send_msg env m s
step env (flag now) s = req_round env now s

unfoldable pub run : Env → List Event → Server → Outcome Server
unfolding step
run env [] s = done s
run env (e ∷ es) s = step env e s >>= λ t. run env es t
