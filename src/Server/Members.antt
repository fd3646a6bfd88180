-- ===== src/Server/Members.antt =====
-- A join or an exit at a server of the system.
use mathlib.Core.Path.{subst}
use dcschain.Base.{
  ◌≡◌, refl, sym, ap, ◌∙◌, false, List, [], Option, none, some, ℤ, length, Text, text_eq, IsTable,
  find, put, remove, find-put, find-remove, put-IsTable, remove-IsTable, if◌then◌else◌,
}
use dcschain.Common.View.{View}
use dcschain.Mgmt.Types.{
  Chan, NodeMgmtMsg, NodeKey, nm_inactive, nm_sync, none_mode, empty_info, empty_mgmt_msg, join,
}
use dcschain.Mgmt.Manager.{NodeManager}
use dcschain.Mgmt.Handlers.{handle_exit}
use dcschain.Orderer.State.{Cons, basic, chained, hotstuff2, pbft, Orderer, view_of}
use dcschain.Orderer.Core.{stop_timers, stop_orderer, update_nodes_num}
use dcschain.Orderer.Sync.{add_sync_info}
use dcschain.Orderer.Views.{view-update_nodes_num}
use dcschain.Server.Outcome.{done, IfDone, IfDone-bind, IfDone-map}
use dcschain.Server.State.{Env, Server}
use dcschain.Server.Send.{send_mgmt, go_send_mgmt}
use dcschain.Server.Kept.{SendsOnly, go_send_mgmt-SendsOnly, send_mgmt-SendsOnly}
use dcschain.Server.Manager.{Choices, stop_server, join_applied, exit_applied, update_node_info}

view-stop_timers : (c : Cons) → view_of (stop_timers c) ≡ view_of c
unfolding stop_timers view_of
view-stop_timers (basic s) = refl
view-stop_timers (chained s) = refl
view-stop_timers (hotstuff2 s) = refl
view-stop_timers (pbft s) = refl

-- The server `t` is the server `s` stopped, with the entries `e` and `c` for the sender of `m` in its
-- table of nodes and in its channels, and as many nodes in its view as in that table.
pub record Changed (e : Option NodeKey) (c : Option Chan) (m : NodeMgmtMsg) (s t : Server)
    : Type 0 where
  pub stopped : (t.orderer.handle_state ≡ false) × (t.orderer.req_state ≡ false)
  pub entries :
      (j : Text)
      → find j t.node_manager.nodes_table
        ≡ (if text_eq m.send_node j then e else find j s.node_manager.nodes_table)
  pub channels :
      (j : Text)
      → find j t.node_manager.nodes_channel
        ≡ (if text_eq m.send_node j then c else find j s.node_manager.nodes_channel)
  pub is_table : IsTable t.node_manager.nodes_table
  pub same_view :
      view_of t.orderer.cons
      ≡ record (view_of s.orderer.cons) { nodes_num = length t.node_manager.nodes_table }
  pub at_rest : (t.node_manager.state ≡ nm_inactive) × (t.node_manager.new_node.name ≡ [])

-- The server `s` stopped, with the node manager `nm` put to rest.
abbrev updated : NodeManager → Server → Server
updated nm s = record s {
  orderer = record {
    cons = update_nodes_num (length nm.nodes_table) (stop_timers s.orderer.cons);
    handle_state = false;
    req_state = false;
  };
  node_manager = record nm { new_node = empty_info; state = nm_inactive; mode = none_mode };
}

updated-Changed :
    (e : Option NodeKey) (c : Option Chan) (m : NodeMgmtMsg) (nm : NodeManager) (s t : Server)
    → t.orderer ≡ (updated nm s).orderer
    → t.node_manager ≡ (updated nm s).node_manager
    → ((j : Text)
        → find j nm.nodes_table
          ≡ (if text_eq m.send_node j then e else find j s.node_manager.nodes_table))
    → ((j : Text)
        → find j nm.nodes_channel
          ≡ (if text_eq m.send_node j then c else find j s.node_manager.nodes_channel))
    → IsTable nm.nodes_table
    → Changed e c m s t
updated-Changed e c m nm s t o k entries channels table = record {
  stopped = (ap (λ (x : Orderer). x.handle_state) o, ap (λ (x : Orderer). x.req_state) o);
  entries = λ j. ap (λ (x : NodeManager). find j x.nodes_table) k ∙ entries j;
  channels = λ j. ap (λ (x : NodeManager). find j x.nodes_channel) k ∙ channels j;
  is_table = subst (λ (x : NodeManager). IsTable x.nodes_table) (sym k) table;
  same_view =
      ap (λ (x : Orderer). view_of x.cons) o
      ∙ view-update_nodes_num (length nm.nodes_table) (stop_timers s.orderer.cons)
      ∙ ap (λ (v : View). record v { nodes_num = length nm.nodes_table })
          (view-stop_timers s.orderer.cons)
      ∙ ap
          (λ (x : NodeManager). record (view_of s.orderer.cons) {
            nodes_num = length x.nodes_table;
          })
          (sym k);
  at_rest = (ap (λ (x : NodeManager). x.state) k, ap (λ (x : NodeManager). x.new_node.name) k);
}

-- The node manager of the server `s` once the sender of `m` has joined, or left.
abbrev with_node : NodeMgmtMsg → NodeManager → NodeManager
with_node m nm = record nm {
  nodes_channel = put m.send_node nm.new_node.chan nm.nodes_channel;
  nodes_table = put m.send_node m.node_key nm.nodes_table;
}

abbrev without_node : NodeMgmtMsg → NodeManager → NodeManager
without_node m nm = record nm {
  nodes_channel = remove m.send_node nm.nodes_channel;
  nodes_table = remove m.send_node nm.nodes_table;
}

-- The server `s` stopped, and about to let the sender of `m` go.
abbrev leaving : NodeMgmtMsg → Server → Server
leaving m s = record s {
  orderer = stop_orderer s.orderer;
  node_manager = (handle_exit m s.node_manager).0;
}

-- The server `t` is the server `s` once the sender of `m` has gone.
abbrev pub LeftBy : NodeMgmtMsg → Server → Server → Type 0
LeftBy m s t =
    let u = updated (without_node m s.node_manager) s in
    (t.orderer ≡ u.orderer) × (t.node_manager ≡ u.node_manager)

exit_updates :
    (order : List ℤ) (m : NodeMgmtMsg) (s u : Server)
    → text_eq s.name m.send_node ≡ false
    → SendsOnly (leaving m s) u
    → IfDone (LeftBy m s) (update_node_info order none u)
unfolding update_node_info handle_exit stop_orderer
exit_updates order m s u other (o, k, named) =
    rw (o, k, named, IfDone, update_node_info, other) (refl, refl)

pub exit_leaves :
    (env : Env) (ch : Choices) (m : NodeMgmtMsg) (s : Server)
    → text_eq s.name m.send_node ≡ false
    → IfDone (LeftBy m s) (exit_applied env ch m s)
unfolding exit_applied stop_server stop_orderer
exit_leaves env ch m s other =
    IfDone-bind (SendsOnly (leaving m s)) (LeftBy m s)
      (send_mgmt env (handle_exit m s.node_manager).1 (leaving m s))
      (λ q. update_node_info ch.leader_order none q)
      (send_mgmt-SendsOnly env (handle_exit m s.node_manager).1 (leaving m s))
      (λ q sent. exit_updates ch.leader_order m s q other sent)

pub left-Changed :
    (m : NodeMgmtMsg) (s t : Server)
    → IsTable s.node_manager.nodes_table
    → LeftBy m s t
    → Changed none none m s t
left-Changed m s t table (o, k) =
    updated-Changed none none m (without_node m s.node_manager) s t o k
      (λ j. find-remove m.send_node j s.node_manager.nodes_table)
      (λ j. find-remove m.send_node j s.node_manager.nodes_channel)
      (remove-IsTable m.send_node s.node_manager.nodes_table table)

-- Of a server whose table of nodes has no name twice, and the message of a node of another name.
-- When the node applies to join, the server goes on without blocking or panicking: its orderer is
-- stopped, its table has the node with the key of the message, its channels the announced one,
-- both otherwise as before, and its view stays but for the number of nodes, which is that of the
-- table. When the node applies to exit, the same holds with the node out of both, if the server
-- returns at all.
pub members_change :
    (env : Env) (ch : Choices) (m : NodeMgmtMsg) (s : Server)
    → text_eq s.name m.send_node ≡ false
    → IsTable s.node_manager.nodes_table
    → ((t : Server) × (join_applied env ch m s ≡ done t)
        × Changed (some m.node_key) (some s.node_manager.new_node.chan) m s t)
      × IfDone (Changed none none m s) (exit_applied env ch m s)
unfolding join_applied exit_applied update_node_info stop_server stop_orderer
members_change env ch m s other table =
    let nm = s.node_manager in
    let u = updated (with_node m nm) s in
    let a =
      add_sync_info env.cons (stop_timers s.orderer.cons)
        (record empty_mgmt_msg { m_type = join; nm_type = nm_sync; reci_node = m.send_node }) in
    let kept = go_send_mgmt-SendsOnly env a u in
    (
      (
        go_send_mgmt env a u,
        rw (join_applied, other) refl,
        updated-Changed (some m.node_key) (some nm.new_node.chan) m (with_node m nm) s
            (go_send_mgmt env a u) kept.0 kept.1
            (λ j. find-put m.send_node j m.node_key nm.nodes_table)
            (λ j. find-put m.send_node j nm.new_node.chan nm.nodes_channel)
            (put-IsTable m.send_node m.node_key nm.nodes_table table),
      ),
      IfDone-map (exit_applied env ch m s) (λ t. left-Changed m s t table)
          (exit_leaves env ch m s other),
    )
