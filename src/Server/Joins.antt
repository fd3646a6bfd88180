-- ===== src/Server/Joins.antt =====
-- A new node among replicas that agree on the view.
use dcschain.Base.{
  ◌+◌, ◌≤◌, ◌≡◌, refl, ap, ◌∙◌, true, false, List, [], ◌∷◌, ◌++◌, arith, length, length-append, leb,
  text_eq, All, All-map,
}
use mathlib.Core.List.{append_assoc, append-nil}
use dcschain.Common.View.{View}
use dcschain.Quorum.{threshold}
use dcschain.Mgmt.Manager.{NodeManager}
use dcschain.Mgmt.Types.{
  empty_mgmt_msg, empty_info, none_mode, join, nm_restart, NodeMgmtMsg, nm_apply, nm_inactive,
  nm_sync,
}
use dcschain.Mgmt.Handlers.{gossip, handle_sync}
use dcschain.Mgmt.Choice.{Among, get_leader_any_order}
use dcschain.Orderer.State.{Cons, Orderer, view_of}
use dcschain.Orderer.Views.{taken_view, view-update_nodes_num}
use dcschain.Server.Outcome.{Outcome, done, ◌>>=◌}
use dcschain.Server.State.{Env, Server}
use dcschain.Server.Send.{go_send_mgmt}
use dcschain.Server.Kept.{go_send_mgmt-SendsOnly}
use dcschain.Server.Manager.{Choices, update_node_info, join_synced}
use dcschain.Server.Answers.{
  Answers, Answers-leader, Answers-TakesView, chosen, leader_count_all, tried-Among,
}

-- A server with the sync messages `ms` on record.
abbrev with_synced : Server → List NodeMgmtMsg → Server
with_synced s ms = record s { node_manager = record (s.node_manager) { sync_msgs = ms } }

join_synced_waits :
    (env : Env) (ch : Choices) (m : NodeMgmtMsg) (s : Server)
    → length (s.node_manager.sync_msgs ++ (m ∷ [])) ≤ threshold (length s.node_manager.nodes_table)
    → join_synced env ch m s ≡ done (with_synced s (s.node_manager.sync_msgs ++ (m ∷ [])))
unfolding join_synced handle_sync
join_synced_waits env ch m s few =
    let early : leb (length (s.node_manager.sync_msgs ++ (m ∷ [])))
          (threshold (length s.node_manager.nodes_table))
        ≡ true =
      ground arith in
    rw (join_synced, handle_sync, early) refl

abbrev pub run_sync : Env → Choices → List NodeMgmtMsg → Server → Outcome Server
run_sync env ch [] s = done s
run_sync env ch (m ∷ ms) s = join_synced env ch m s >>= λ t. run_sync env ch ms t

run_sync_waits :
    (env : Env) (ch : Choices) (ms : List NodeMgmtMsg) (last : NodeMgmtMsg) (s : Server)
    → length (s.node_manager.sync_msgs ++ ms) ≤ threshold (length s.node_manager.nodes_table)
    → run_sync env ch (ms ++ (last ∷ [])) s
      ≡ (join_synced env ch last (with_synced s (s.node_manager.sync_msgs ++ ms)) >>= λ t. done t)
run_sync_waits env ch [] last s few = rw (append-nil s.node_manager.sync_msgs) refl
run_sync_waits env ch (m ∷ ms) last s few =
    let xs = s.node_manager.sync_msgs in
    let t = threshold (length s.node_manager.nodes_table) in
    let moved = append_assoc xs (m ∷ []) ms in
    let count = length-append (xs ++ (m ∷ [])) ms in
    let same = ap (λ ys. length ys) moved in
    rw (join_synced_waits env ch m s (omega (arith, few, count, same))) (
      run_sync_waits env ch ms last (with_synced s (xs ++ (m ∷ []))) (omega (arith, few, same))
      ∙ ap (λ ys. join_synced env ch last (with_synced s ys) >>= λ x. done x) moved)

-- What a new node has once it is part of the system.
abbrev pub Joined : View → Server → Server → Type 0
Joined w s r =
    (view_of r.orderer.cons ≡ record w { nodes_num = length s.node_manager.nodes_table })
    × (r.node_manager.state ≡ nm_inactive)
    × (r.node_manager.nodes_table ≡ s.node_manager.nodes_table)
    × (r.orderer.handle_state ≡ s.orderer.handle_state)

abbrev restart_msg : Server → NodeMgmtMsg
restart_msg s = record empty_mgmt_msg {
  m_type = join;
  nm_type = nm_restart;
  send_node = s.node_manager.new_node.name;
  reci_node = gossip;
}

-- The new node with the state `c` taken over and its node manager reset.
abbrev joined_as : Cons → Server → List NodeMgmtMsg → Server
joined_as c s ms = record s {
  orderer = record (s.orderer) { cons = c };
  node_manager = record (s.node_manager) {
    sync_msgs = ms;
    new_node = empty_info;
    state = nm_inactive;
    mode = none_mode;
  };
}

join_synced_last :
    (env : Env) (ch : Choices) (w : View) (m : NodeMgmtMsg) (s : Server)
    → s.node_manager.state ≡ nm_apply
    → text_eq s.name s.node_manager.new_node.name ≡ true
    → Among w.leader ch.leader_order
    → let ms = s.node_manager.sync_msgs ++ (m ∷ []) in
      length ms ≡ threshold (length s.node_manager.nodes_table) + 1
      → All (Answers w s.orderer.cons) ms
      → (r : Server) × (join_synced env ch m s ≡ done r) × Joined w s r
unfolding join_synced handle_sync update_node_info
join_synced_last env ch w m s applying own tried enough answers =
    let nm = s.node_manager in
    let n = length nm.nodes_table in
    let ms = nm.sync_msgs ++ (m ∷ []) in
    let late : leb (length ms) (threshold n) ≡ false = ground (arith, enough) in
    let (i, x, found, at, answer) = chosen ms (omega (arith, enough)) answers in
    let led = All-map (Answers-leader w s.orderer.cons) ms answers in
    let leader =
      (get_leader_any_order (record nm { sync_msgs = ms; state = nm_sync }) ms ch.leader_order
          (omega (arith, enough)) (tried-Among w.leader ch.leader_order ms tried led)).0
        w.leader (omega (arith, enough, leader_count_all w.leader ms led)) in
    let (c, taken, view) = Answers-TakesView n w s.orderer.cons x answer in
    let u = joined_as c s ms in
    let kept = go_send_mgmt-SendsOnly env (restart_msg s) u in
    (
      go_send_mgmt env (restart_msg s) u,
      rw (join_synced, handle_sync, late, applying, found, update_node_info, own, at, leader, taken)
          refl,
      (
        ap (λ (o : Orderer). view_of o.cons) kept.0
            ∙ view
            ∙ ap (λ v. taken_view v w w.leader) (view-update_nodes_num n s.orderer.cons),
        ap (λ (k : NodeManager). k.state) kept.1,
        ap (λ (k : NodeManager). k.nodes_table) kept.1,
        ap (λ (o : Orderer). o.handle_state) kept.0,
      ),
    )

-- A server that has applied to join, under its own name and with no sync message yet, gets
-- answers that replicas of its own protocol, all in one view, wrote into messages without blocks
-- and nodes: one more than the threshold of the nodes in its table. In HotStuff-2 each of the
-- replicas has a locked block, and the leader of the view is among those that are tried. The
-- server is then done with joining: it is in that view, under that leader, among as many nodes as
-- its table has, with its node manager at rest.
pub join_completes :
    (env : Env) (ch : Choices) (w : View) (ms : List NodeMgmtMsg) (last : NodeMgmtMsg) (s : Server)
    → s.node_manager.state ≡ nm_apply
    → text_eq s.name s.node_manager.new_node.name ≡ true
    → s.node_manager.sync_msgs ≡ []
    → Among w.leader ch.leader_order
    → length ms ≡ threshold (length s.node_manager.nodes_table)
    → All (Answers w s.orderer.cons) (ms ++ (last ∷ []))
    → (r : Server) × (run_sync env ch (ms ++ (last ∷ [])) s ≡ done r) × Joined w s r
join_completes env ch w ms last s applying own fresh tried enough answers =
    let q = with_synced s ms in
    let few : length (s.node_manager.sync_msgs ++ ms)
        ≤ threshold (length s.node_manager.nodes_table) =
      omega (arith, enough, ap (λ (xs : List NodeMgmtMsg). length (xs ++ ms)) fresh) in
    let (r, e, joined) =
      join_synced_last env ch w last q applying own tried
        (length-append ms (last ∷ []) ∙ ap (λ k. k + 1) enough) answers in
    (
      r,
      run_sync_waits env ch ms last s few
          ∙ ap (λ xs. join_synced env ch last (with_synced s (xs ++ ms)) >>= λ t. done t) fresh
          ∙ rw e refl,
      joined,
    )
