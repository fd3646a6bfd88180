-- ===== src/Server/Arrivals.antt =====
-- What a node that applies to join sets off at the others.
use mathlib.Core.Path.{subst}
use mathlib.Core.Logic.Or
use mathlib.Core.List.{
  Mem, Mem-prop, eq-or-mem_of_mem-cons, not-mem-nil, mem-append_right, mem-cons_self,
}
use dcschain.Base.{
  ℕ, ◌≡◌, refl, sym, ap, ◌∙◌, true, false, List, [], ◌∷◌, some, ℤ, Text, Bytes, text_eq, Table,
  find, IsTable, if_elim, if◌then◌else◌,
}
use dcschain.Common.Name.{node_name}
use dcschain.Mgmt.Types.{NodeKey, NodeMgmtMsg, basic, join, nm_apply}
use dcschain.Mgmt.Manager.{NodeManager}
use dcschain.Server.Outcome.{done}
use dcschain.Server.State.{Env, Server, Sent, to_inbox}
use dcschain.Server.Send.{
  go_send_mgmt, go_send_msg, send_msg, mgmt_msg, packed, route_out, unicast, fixedcast,
}
use dcschain.Server.Kept.{SendsOnly, go_send_mgmt-Mem, go_send_mgmt-SendsOnly}
use dcschain.Server.Manager.{Choices, join_applied, handle_node_manager_msg, handle_mgmt}
use dcschain.Server.Core.{apply_all, application, start_join, route_server_msg, dispatch, is_signed}
use dcschain.Server.Members.{Changed, members_change}

go_sends :
    (env : Env) (r : NodeMgmtMsg) (s : Server) (i : ℤ) (c : ℕ) (p json : List ℕ) (sig : Bytes)
    → r.reci_node ≡ node_name i
    → text_eq (node_name i) s.node_manager.new_node.name ≡ false
    → find (node_name i) s.node_manager.nodes_channel ≡ some (some c)
    → env.of_mgmt r ≡ some p
    → env.sm2_sign (env.sum_sm3 p) ≡ some sig
    → env.of_server (record (packed s r p) { sign = sig }) ≡ some json
    → Mem (to_inbox c json) (go_send_mgmt env r s).sent
unfolding go_send_mgmt mgmt_msg go_send_msg send_msg route_out unicast fixedcast node_name text_eq
go_sends env r s i c p json sig to other at packs signs codes =
    rw
      (
        go_send_mgmt, mgmt_msg, packs, go_send_msg, send_msg, signs, codes, route_out, to, other,
        unicast, at,
      )
      (mem-append_right s.sent mem-cons_self)

apply_all-Mem :
    (env : Env) (self : Text) (f : NodeKey → NodeMgmtMsg) (t : Table NodeKey) (s : Server)
    (x : Sent)
    → Mem x s.sent
    → Mem x (apply_all env self f t s).sent
unfolding apply_all
apply_all-Mem env self f [] s x there = there
apply_all-Mem env self f ((name, k) ∷ t) s x there = apply_all-Mem env self f t _ x (
    if_elim (λ (u : Server). Mem x u.sent) (text_eq k.name self) there
      (go_send_mgmt-Mem env (f k) s x there))

apply_all-sends :
    (env : Env) (self : Text) (f : NodeKey → NodeMgmtMsg) (t : Table NodeKey) (s : Server)
    (x : Sent) (e : Text × NodeKey)
    → Mem e t
    → text_eq e.1.name self ≡ false
    → ((u : Server) → SendsOnly s u → Mem x (go_send_mgmt env (f e.1) u).sent)
    → Mem x (apply_all env self f t s).sent
unfolding apply_all
apply_all-sends env self f [] s x e listed other sends = absurd (not-mem-nil listed)
apply_all-sends env self f ((name, k) ∷ t) s x e listed other sends =
    Or.elim Mem-prop (eq-or-mem_of_mem-cons listed)
      (λ here.
        let same : text_eq k.name self ≡ false =
          ap (λ (d : Text × NodeKey). text_eq d.1.name self) (sym here) ∙ other in
        rw (apply_all, same)
          (apply_all-Mem env self f t _ x (
            subst (λ (d : Text × NodeKey). Mem x (go_send_mgmt env (f d.1) s).sent) here
              (sends s (refl, refl, refl)))))
      (λ later.
        let next = if text_eq k.name self then s else go_send_mgmt env (f k) s in
        let kept : SendsOnly s next =
          if_elim (SendsOnly s) (text_eq k.name self) (refl, refl, refl)
            (go_send_mgmt-SendsOnly env (f k) s) in
        apply_all-sends env self f t next x e later other
          (λ u sent. sends u (sent.0 ∙ kept.0, sent.1 ∙ kept.1, sent.2 ∙ kept.2)))

-- A message that carries an application arrives.
arriving :
    (env : Env) (ch : Choices) (s t : Server) (m : NodeMgmtMsg) (p json : List ℕ) (sig : Bytes)
    → m.m_type ≡ join
    → m.nm_type ≡ nm_apply
    → t.nm_type ≡ basic
    → env.to_mgmt p ≡ some m
    → env.to_server json ≡ some (record (packed s m p) { sign = sig })
    → route_server_msg env ch json t ≡ join_applied env ch m t
unfolding route_server_msg dispatch handle_node_manager_msg handle_mgmt text_eq
arriving env ch s t m p json sig joins applies kind reads opens =
    rw (route_server_msg, opens)
      (if_elim (λ r. r ≡ join_applied env ch m t)
        (is_signed env (record (packed s m p) { sign = sig }) t) handled handled)
  where
    handled : dispatch env ch (record (packed s m p) { sign = sig }) t ≡ join_applied env ch m t
    handled =
        let is_basic : text_eq t.nm_type basic ≡ true = ap (λ k. text_eq k basic) kind in
        rw (dispatch, handle_node_manager_msg, is_basic, reads, handle_mgmt, joins, applies) refl

-- A new node starts to join. Another node, of another name, is in its table under that name and
-- has a channel that is not nil; json reads back the application to it and the signed message
-- around that, and SM2 signs it. The message is then among what the new node has sent into that
-- channel; and any server that has the basic node manager, another name than the new node and no
-- name twice in its table lets the new node in when it takes the message out.
pub application_arrives :
    (env : Env) (ch : Choices) (s t : Server) (e : Text × NodeKey) (i : ℤ) (c : ℕ) (p json : List ℕ)
    (sig : Bytes)
    → let m = application s e.1 in
      let x = record (packed s m p) { sign = sig } in
      Mem e s.node_manager.nodes_table
      → e.1.name ≡ node_name i
      → text_eq (node_name i) s.name ≡ false
      → text_eq (node_name i) s.node_manager.new_node.name ≡ false
      → find (node_name i) s.node_manager.nodes_channel ≡ some (some c)
      → (env.of_mgmt m ≡ some p) × (env.to_mgmt p ≡ some m)
      → (env.of_server x ≡ some json) × (env.to_server json ≡ some x)
      → env.sm2_sign (env.sum_sm3 p) ≡ some sig
      → t.nm_type ≡ basic
      → text_eq t.name s.name ≡ false
      → IsTable t.node_manager.nodes_table
      → Mem (to_inbox c json) (start_join env s).sent
        × ((u : Server) × (route_server_msg env ch json t ≡ done u)
            × Changed (some m.node_key) (some t.node_manager.new_node.chan) m t u)
unfolding start_join application
application_arrives env ch s t e i c p json sig listed named other new at (packs, reads)
      (codes, opens) signs kind apart table =
    let m = application s e.1 in
    let here = record s { node_manager = record (s.node_manager) { mode = join } } in
    let (u, joined, changed) = (members_change env ch m t apart table).0 in
    (
      apply_all-sends env s.name (λ k. application s k) s.node_manager.nodes_table here
          (to_inbox c json) e listed (ap (λ n. text_eq n s.name) named ∙ other)
          (λ v (o, k, n).
            go_sends env m v i c p json sig named
              (ap (λ (x : NodeManager). text_eq (node_name i) x.new_node.name) k ∙ new)
              (ap (λ (x : NodeManager). find (node_name i) x.nodes_channel) k ∙ at) packs signs
              (ap (λ a. env.of_server (record (packed s m p) { send_server = a; sign = sig })) n
                ∙ codes)),
      (u, arriving env ch s t m p json sig refl refl kind reads opens ∙ joined, changed),
    )
