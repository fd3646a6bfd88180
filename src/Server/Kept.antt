-- ===== src/Server/Kept.antt =====
-- Sending leaves all of a server alone but what it has sent, to which it adds.
use mathlib.Core.List.{Mem, mem-append_left}
use dcschain.Base.{◌≡◌, refl, Option-cases, inl, inr, ◌++◌, List}
use dcschain.Mgmt.Types.{NodeMgmtMsg}
use dcschain.Server.Outcome.{Outcome, done, blocks, panics, ◌>>=◌, IfDone}
use dcschain.Server.State.{Env, Server, ServerMsg, Sent}
use dcschain.Server.Send.{go_send_mgmt, go_send_msg, mgmt_msg, send_msg, send_mgmt, route_out}

-- What holds of a server, whatever it sends, holds once it has sent.
module _ (P : Server → Type 0) (s : Server) (now : P s)
    (then_too : (out : List Sent) → P (record s { sent = s.sent ++ out })) where
  with_sent-IfDone :
      (o : Outcome (List Sent)) → IfDone P (o >>= λ out. done (record s { sent = s.sent ++ out }))
  with_sent-IfDone (done out) = then_too out
  with_sent-IfDone blocks = tt
  with_sent-IfDone panics = tt

  send_msg-IfDone : (env : Env) (m : ServerMsg) → IfDone P (send_msg env m s)
  unfolding send_msg
  send_msg-IfDone env m = elim (Option-cases (env.sm2_sign (env.sum_sm3 m.payload))) [
    | inl unsigned ↦ rw (unsigned, IfDone, send_msg) now
    | inr (sig, signed) ↦ elim (Option-cases (env.of_server (record m { sign = sig }))) [
      | inl refused ↦ rw (signed, refused, IfDone, send_msg) now
      | inr (json, encoded) ↦
          rw (signed, encoded, IfDone, send_msg) (with_sent-IfDone (route_out m json s))
    ]
  ]

  pub send_mgmt-IfDone : (env : Env) (r : NodeMgmtMsg) → IfDone P (send_mgmt env r s)
  unfolding send_mgmt
  send_mgmt-IfDone env r = elim (Option-cases (mgmt_msg env r s)) [
    | inl dropped ↦ rw (dropped, IfDone, send_mgmt) now
    | inr (m, made) ↦ rw (made, IfDone, send_mgmt) (send_msg-IfDone env m)
  ]

  go_on : (o : Outcome Server) → IfDone P o → P (elim o [ done t ↦ t | blocks ↦ s | panics ↦ s ])
  go_on (done t) h = h
  go_on blocks h = now
  go_on panics h = now

  pub go_send_mgmt-Holds : (env : Env) (r : NodeMgmtMsg) → P (go_send_mgmt env r s)
  unfolding go_send_mgmt go_send_msg
  go_send_mgmt-Holds env r = elim (Option-cases (mgmt_msg env r s)) [
    | inl dropped ↦ rw (go_send_mgmt, dropped) now
    | inr (m, made) ↦
        rw (go_send_mgmt, made, go_send_msg) (go_on (send_msg env m s) (send_msg-IfDone env m))
  ]

abbrev pub SendsOnly : Server → Server → Type 0
SendsOnly s t = (t.orderer ≡ s.orderer) × (t.node_manager ≡ s.node_manager) × (t.name ≡ s.name)

pub go_send_mgmt-SendsOnly :
    (env : Env) (r : NodeMgmtMsg) (s : Server) → SendsOnly s (go_send_mgmt env r s)
go_send_mgmt-SendsOnly env r s =
    go_send_mgmt-Holds (SendsOnly s) s (refl, refl, refl) (λ out. (refl, refl, refl)) env r

pub send_mgmt-SendsOnly :
    (env : Env) (r : NodeMgmtMsg) (s : Server) → IfDone (SendsOnly s) (send_mgmt env r s)
send_mgmt-SendsOnly env r s =
    send_mgmt-IfDone (SendsOnly s) s (refl, refl, refl) (λ out. (refl, refl, refl)) env r

-- What was sent stays sent.
pub go_send_mgmt-Mem :
    (env : Env) (r : NodeMgmtMsg) (s : Server) (x : Sent)
    → Mem x s.sent
    → Mem x (go_send_mgmt env r s).sent
go_send_mgmt-Mem env r s x there =
    go_send_mgmt-Holds (λ t. Mem x t.sent) s there (λ out. mem-append_left out there) env r
