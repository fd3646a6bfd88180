-- ===== src/Server/Manager.antt =====
-- core/server/handler.go (HandleNodeManagerMsg), sync.go, join.go and exit.go: a server's part in the
-- join and the exit of a node.
use dcschain.Base.{
  ℕ, not, List, [], ◌∷◌, Option, none, some, ℤ, text_eq, if◌then◌else◌, ◌==◌, length, get_elem?,
}
use dcschain.Mgmt.Types.{basic, nm_apply, nm_sync, nm_agree, nm_restart, join, exit, NodeMgmtMsg}
use dcschain.Mgmt.Manager.{update_new_node_info, reset_node_manager}
use dcschain.Mgmt.Handlers.{
  handle_join, handle_exit, handle_sync, handle_agree, get_leader_from_sync_msgs,
}
use dcschain.Orderer.State.{Cons, get_leader_name, init_leader}
use dcschain.Orderer.Core.{
  stop_orderer, reset_state, restart_cons, with_cons, is_ready, update_nodes_num, fix_leader,
  refresh_leader,
}
use dcschain.Orderer.Sync.{add_sync_info, sync_info}
use dcschain.Server.Outcome.{Outcome, done, blocks, panics, ◌>>=◌}
use dcschain.Server.State.{Env, Server}
use dcschain.Server.Send.{go_send_mgmt, send_mgmt}
use dcschain.Server.Requests.{or_panic}

-- What a loop and a map leave open: the sizes of the threshold signer that the rounds of the waiting
-- loop find, and the order in which the leaders of the sync messages are tried.
pub record Choices : Type 0 where
  pub now : ℤ
  pub signer_sizes : List ℕ
  pub leader_order : List ℤ

abbrev pub on_cons : (Cons → Cons) → Server → Server
on_cons f s = record s { orderer = record (s.orderer) { cons = f s.orderer.cons } }

-- StopOrderer
unfoldable pub stop_server : Server → Server
unfolding stop_orderer
stop_server s = record s { orderer = stop_orderer s.orderer }

-- RestartOrderer
unfoldable pub restart_orderer : Env → ℤ → Server → Outcome Server
unfolding reset_state restart_cons
restart_orderer env now s =
    let o = reset_state env.cons s.orderer in
    do
      p ← or_panic (with_cons o (restart_cons env.cons now o.cons))
      done (record s { orderer = p })

counted : Server → Server
unfolding update_nodes_num
counted s = on_cons (λ c. update_nodes_num (length s.node_manager.nodes_table) c) s

reset_manager : Server → Server
unfolding reset_node_manager
reset_manager s = record s { node_manager = reset_node_manager s.node_manager }

-- UpdateNodeInfo; `none` stands for the index -1, which the new node itself cannot use
unfoldable pub update_node_info : List ℤ → Option ℕ → Server → Outcome Server
unfolding update_new_node_info counted reset_manager sync_info get_leader_from_sync_msgs
update_node_info order index s =
    let nm = s.node_manager in
    if not (text_eq s.name nm.new_node.name)
    then done (reset_manager (counted (record s { node_manager = update_new_node_info nm })))
    else (let t = counted s in
        elim index [
          | none ↦ panics
          | some i ↦ elim (get_elem? nm.sync_msgs i) [
            | none ↦ panics
            | some m ↦ do
              c ←
                  or_panic
                    (sync_info m (get_leader_from_sync_msgs order nm.sync_msgs nm) t.orderer.cons)
              done (reset_manager (on_cons (λ x. c) t))
          ]
        ])

-- HandleNodeManagerMsg, by the type of the message: a node applies to join
unfoldable pub join_applied : Env → Choices → NodeMgmtMsg → Server → Outcome Server
unfolding stop_server handle_join add_sync_info update_node_info go_send_mgmt
join_applied env ch m s =
    let t = stop_server s in
    let r = handle_join m t.node_manager in
    let answer = add_sync_info env.cons t.orderer.cons r.1 in
    do
      u ← update_node_info ch.leader_order none (record t { node_manager = r.0 })
      done (go_send_mgmt env answer u)

-- the new node gets the state of another
unfoldable pub join_synced : Env → Choices → NodeMgmtMsg → Server → Outcome Server
unfolding handle_sync update_node_info go_send_mgmt
join_synced env ch m s = elim (handle_sync m s.node_manager) [
  | none ↦ panics
  | some (nm, none) ↦ done (record s { node_manager = nm })
  | some (nm, some (i, r)) ↦
      if nm.state == nm_sync
      then (do
        u ← update_node_info ch.leader_order (some i) (record s { node_manager = nm })
        done (go_send_mgmt env r u))
      else done (record s { node_manager = nm })
]

-- The loop that waits for IsReady.
unfoldable pub wait_ready : List ℕ → Server → Outcome Server
unfolding is_ready
wait_ready [] s = blocks
wait_ready (n ∷ ns) s =
    let rest = wait_ready ns s in if is_ready n s.orderer.cons then done s else rest

-- a node has joined
unfoldable pub join_restarted : Env → Choices → Server → Outcome Server
unfolding wait_ready restart_orderer fix_leader get_leader_name
join_restarted env ch s = do
  t ← wait_ready ch.signer_sizes s
  u ← restart_orderer env ch.now t
  done (
      if text_eq u.name (get_leader_name u.orderer.cons)
      then on_cons (λ c. fix_leader env.cons c) u
      else u)

-- a node applies to leave
unfoldable pub exit_applied : Env → Choices → NodeMgmtMsg → Server → Outcome Server
unfolding stop_server handle_exit update_node_info send_mgmt
exit_applied env ch m s =
    let t = stop_server s in
    let r = handle_exit m t.node_manager in
    do
      u ← send_mgmt env r.1 (record t { node_manager = r.0 })
      update_node_info ch.leader_order none u

-- the leaving node is told that it may leave
unfoldable pub exit_agreed : Env → NodeMgmtMsg → Server → Server
unfolding handle_agree go_send_mgmt
exit_agreed env m s =
    let r = handle_agree m s.node_manager in
    let t = record s { node_manager = r.0 } in
    elim (r.1) [ none ↦ t | some a ↦ go_send_mgmt env a t ]

-- The leader's number is brought below the new number of nodes where the leader is the one that left.
refreshed : Env → NodeMgmtMsg → Server → Server
unfolding refresh_leader get_leader_name init_leader
refreshed env m s =
    let t = on_cons (λ c. refresh_leader c) s in
    if text_eq m.send_node (get_leader_name s.orderer.cons)
    then (if text_eq s.name (get_leader_name t.orderer.cons)
        then on_cons (λ c. init_leader env.cons c) t
        else t)
    else s

-- a node has left
unfoldable pub exit_restarted : Env → Choices → NodeMgmtMsg → Server → Outcome Server
unfolding wait_ready restart_orderer refreshed
exit_restarted env ch m s = do
  t ← wait_ready ch.signer_sizes s
  u ← restart_orderer env ch.now t
  done (refreshed env m u)

-- HandleNodeManagerMsg on a message
unfoldable pub handle_mgmt : Env → Choices → NodeMgmtMsg → Server → Outcome Server
unfolding join_applied join_synced join_restarted exit_applied exit_agreed exit_restarted
handle_mgmt env ch m s =
    if m.m_type == join
    then (if m.nm_type == nm_apply
        then join_applied env ch m s
        else if m.nm_type == nm_sync
        then join_synced env ch m s
        else if m.nm_type == nm_restart
        then join_restarted env ch s
        else done s)
    else if m.m_type == exit
    then (if m.nm_type == nm_apply
        then exit_applied env ch m s
        else if m.nm_type == nm_agree
        then done (exit_agreed env m s)
        else if m.nm_type == nm_restart
        then exit_restarted env ch m s
        else done s)
    else done s

-- HandleNodeManagerMsg, with SubmitMsg2NodeManager's test of the kind of node manager
unfoldable pub handle_node_manager_msg : Env → Choices → List ℕ → Server → Outcome Server
unfolding handle_mgmt
handle_node_manager_msg env ch payload s =
    if text_eq s.nm_type basic
    then elim (env.to_mgmt payload) [ none ↦ done s | some m ↦ handle_mgmt env ch m s ]
    else done s
