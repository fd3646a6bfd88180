-- ===== src/Server/Exits.antt =====
-- What is left of a node that has gone.
use dcschain.Base.{
  ℕ, zero, suc, ◌+◌, ◌-◌, ◌%◌, ◌<◌, ◌≡◌, refl, sym, ap, ◌∙◌, true, false, List, none, some, ℤ, pos,
  ◌+ℤ◌, ◌%ℤ◌, arith, length, Bytes, text_eq, text_eq_iff, IsTable, has, find, remove, length-remove,
  +ℤ_parts, eq_of_parts,
}
use native.Mathlib.Nat.{mod-add-mod, add-mod_left, mod-eq_of_lt, mod-lt}
use dcschain.Mgmt.Handlers.{handle_exit}
use dcschain.Server.Send.{send_mgmt, mgmt_msg, packed}
use dcschain.Server.Manager.{stop_server}
use dcschain.Mgmt.Types.{NodeMgmtMsg}
use dcschain.Mgmt.Manager.{NodeManager}
use dcschain.Orderer.State.{view_of}
use dcschain.Server.Outcome.{blocks, IfDone, IfDone-map}
use dcschain.Server.State.{Env, Server, ServerMsg}
use dcschain.Server.Send.{send_msg, route_out, unicast, fixedcast}
use dcschain.Server.Manager.{Choices, exit_applied}
use dcschain.Server.Members.{Changed, exit_leaves, left-Changed}
use dcschain.Common.Name.{node_name}
use dcschain.Common.View.{View, next_view, next_views, leader_name}

leader_next :
    (a : ℕ) (v : View) → v.leader ≡ pos a → (next_view v).leader ≡ pos ((a + 1) % v.nodes_num)
unfolding next_view ◌%ℤ◌
leader_next a v h =
    let e : pos a +ℤ pos 1 ≡ pos (a + 1) =
      eq_of_parts _ _ (omega (arith, +ℤ_parts (pos a) (pos 1))) in
    rw (h, e) refl

leader_after :
    (j a : ℕ) (v : View)
    → v.leader ≡ pos a
    → (next_views (suc j) v).leader ≡ pos ((a + suc j) % v.nodes_num)
unfolding next_views next_view
leader_after zero a v h = leader_next a v h
leader_after (suc j) a v h =
    leader_after j ((a + 1) % v.nodes_num) (next_view v) (leader_next a v h)
    ∙ ap pos (mod-add-mod (a + 1) v.nodes_num (suc j) ∙ ap (λ x. x % v.nodes_num) (omega arith))

turn : (a k n : ℕ) → k < n → (a + suc (n + k - a % n - 1)) % n ≡ k
turn a k n low =
    let small : a % n < n = mod-lt a (omega arith) in
    sym (mod-add-mod a n (suc (n + k - a % n - 1)))
    ∙ ap (λ x. x % n) (omega arith)
    ∙ add-mod_left n k
    ∙ mod-eq_of_lt low

-- Every number below the number of nodes leads some later view.
pub leads_later :
    (k a : ℕ) (v : View)
    → v.leader ≡ pos a
    → k < v.nodes_num
    → (j : ℕ) × (leader_name (next_views j v) ≡ node_name (pos k))
unfolding leader_name
leads_later k a v h low =
    let n = v.nodes_num in
    let j = n + k - a % n - 1 in
    (suc j, ap (λ l. node_name l) (leader_after j a v h ∙ ap pos (turn a k n low)))

-- The channel of a node that a server has let go.
gone_channel :
    (m : NodeMgmtMsg) (s t : Server) (k : ℤ)
    → Changed none none m s t
    → m.send_node ≡ node_name k
    → find (node_name k) t.node_manager.nodes_channel ≡ none
gone_channel m s t k c named =
    let same : text_eq (node_name k) (node_name k) ≡ true =
      (text_eq_iff (node_name k) (node_name k)).1 refl in
    ap (λ i. find i t.node_manager.nodes_channel) (sym named)
    ∙ c.channels m.send_node
    ∙ rw (named, same) refl

-- A message to a node that a server has let go.
blocked :
    (env : Env) (m : NodeMgmtMsg) (s t : Server) (x : ServerMsg) (k : ℤ) (sig : Bytes)
    (json : List ℕ)
    → Changed none none m s t
    → m.send_node ≡ node_name k
    → x.reci_server ≡ m.send_node
    → env.sm2_sign (env.sum_sm3 x.payload) ≡ some sig
    → env.of_server (record x { sign = sig }) ≡ some json
    → send_msg env x t ≡ blocks
unfolding send_msg route_out unicast fixedcast node_name text_eq
blocked env m s t x k sig json c named to signs codes =
    rw
      (
        send_msg,
        signs,
        codes,
        route_out,
        to,
        named,
        c.at_rest.1,
        unicast,
        gone_channel m s t k c named,
      )
      refl

-- A server whose table of nodes has no name twice, and whose view has a leader that is no
-- negative number, is told by a node of another name that it exits. The node is in the table, and
-- its number is below that of the nodes that are left. Once the server has returned, the name of
-- that node is still the name of the leader of some later view, and any message for it that can
-- be signed and encoded blocks the server for ever.
pub exited_leads :
    (env : Env) (ch : Choices) (m : NodeMgmtMsg) (s : Server) (k a : ℕ)
    → text_eq s.name m.send_node ≡ false
    → IsTable s.node_manager.nodes_table
    → has m.send_node s.node_manager.nodes_table ≡ true
    → m.send_node ≡ node_name (pos k)
    → suc k < length s.node_manager.nodes_table
    → (view_of s.orderer.cons).leader ≡ pos a
    → IfDone
        (λ t.
          ((j : ℕ) × (leader_name (next_views j (view_of t.orderer.cons)) ≡ m.send_node))
          × ((x : ServerMsg) (sig : Bytes) (json : List ℕ)
              → x.reci_server ≡ m.send_node
              → env.sm2_sign (env.sum_sm3 x.payload) ≡ some sig
              → env.of_server (record x { sign = sig }) ≡ some json
              → send_msg env x t ≡ blocks))
        (exit_applied env ch m s)
exited_leads env ch m s k a other table there named low led =
    IfDone-map (exit_applied env ch m s)
      (λ t left.
        let c = left-Changed m s t table left in
        let n : length t.node_manager.nodes_table
            ≡ length (remove m.send_node s.node_manager.nodes_table) =
          ap (λ (x : NodeManager). length x.nodes_table) left.1 in
        let size = length-remove m.send_node s.node_manager.nodes_table table there in
        let v = view_of t.orderer.cons in
        let fits : k < v.nodes_num =
          rw (ap (λ (x : View). x.nodes_num) c.same_view, n) (omega (arith, size)) in
        let later = leads_later k a v (ap (λ (x : View). x.leader) c.same_view ∙ led) fits in
        (
          (later.0, later.1 ∙ sym named),
          λ x sig json to signs codes. blocked env m s t x (pos k) sig json c named to signs codes,
        ))
      (exit_leaves env ch m s other)

-- `b`, where it has the same map of channels as `t`, as the generated servers have.
unfoldable pub sharing : Server → Server → Server
sharing t b = record b {
  node_manager = record (b.node_manager) { nodes_channel = t.node_manager.nodes_channel };
}

-- What `b` answers a node that applies to exit.
abbrev agreement : NodeMgmtMsg → Server → NodeMgmtMsg
agreement m b = (handle_exit m b.node_manager).1

late :
    (env : Env) (ch : Choices) (n : NodeMgmtMsg) (b t : Server) (k : ℤ) (p json : List ℕ)
    (sig : Bytes)
    → n.send_node ≡ node_name k
    → find (node_name k) t.node_manager.nodes_channel ≡ none
    → env.of_mgmt (agreement n b) ≡ some p
    → env.sm2_sign (env.sum_sm3 p) ≡ some sig
    → env.of_server (record (packed b (agreement n b) p) { sign = sig }) ≡ some json
    → exit_applied env ch n (sharing t b) ≡ blocks
unfolding exit_applied sharing handle_exit stop_server send_mgmt mgmt_msg send_msg route_out
    fixedcast node_name text_eq
late env ch n b t k p json sig too gone packs signs codes =
    let same : text_eq (node_name k) (node_name k) ≡ true =
      (text_eq_iff (node_name k) (node_name k)).1 refl in
    rw
      (exit_applied, send_mgmt, mgmt_msg, packs, send_msg, signs, codes, route_out, too, gone, same)
      refl

-- Two servers have one map of channels, as all generated servers do. One, whose table of nodes
-- has no name twice, is told that a node of another name exits, and has returned. If the other
-- one is told so afterwards, and its answer can be encoded, signed and sent on, it blocks for
-- ever.
pub shared_exit_blocks :
    (env : Env) (ch : Choices) (m n : NodeMgmtMsg) (a b : Server) (k : ℤ) (p json : List ℕ)
    (sig : Bytes)
    → text_eq a.name m.send_node ≡ false
    → IsTable a.node_manager.nodes_table
    → m.send_node ≡ node_name k
    → n.send_node ≡ node_name k
    → env.of_mgmt (agreement n b) ≡ some p
    → env.sm2_sign (env.sum_sm3 p) ≡ some sig
    → env.of_server (record (packed b (agreement n b) p) { sign = sig }) ≡ some json
    → IfDone (λ t. exit_applied env ch n (sharing t b) ≡ blocks) (exit_applied env ch m a)
shared_exit_blocks env ch m n a b k p json sig other table named too packs signs codes =
    IfDone-map (exit_applied env ch m a)
      (λ t left.
        late env ch n b t k p json sig too
          (gone_channel m a t k (left-Changed m a t table left) named) packs signs codes)
      (exit_leaves env ch m a other)
