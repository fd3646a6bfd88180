-- ===== src/Orderer/Core.antt =====
-- orderer/core/orderer.go and handler.go: the operations of the orderer. `none` is a panic.
use dcschain.Base.{
  ℕ, List, [], ◌∷◌, Bool, true, false, Option, none, some, ℤ, Bytes, if◌then◌else◌, ◌==◌,
}
use dcschain.Common.View.{View}
use dcschain.Common.View
use dcschain.Common.Timer.{stop}
use dcschain.BasicHotstuff
use dcschain.BasicHotstuff.Core.{BcRequest}
use dcschain.ChainedHotstuff
use dcschain.Hotstuff2
use dcschain.Pbft
use dcschain.Orderer.State.{Cons, basic, chained, hotstuff2, pbft, Orderer, Env}

-- encoding/json's reading of a payload as the message of each protocol; the last, whose error the
-- code drops, gives what is left in the message.
pub record Codec : Type 0 where
  pub to_msg : List ℕ → Option BasicHotstuff.Types.Msg
  pub to_c_msg : List ℕ → Option ChainedHotstuff.Types.CMsg
  pub to_h2_msg : List ℕ → Option Hotstuff2.Types.H2Msg
  pub to_p_msg : List ℕ → Pbft.Types.PMsg

-- The result of a core under the constructor of its protocol.
abbrev pub under : {A : Type 0} → (A → Cons) → Option A → Option Cons
under f none = none
under f (some a) = some (f a)

unfoldable pub cons_req : Env → ℤ → ℤ → Bytes → Bytes → List BcRequest → Cons → Option Cons
cons_req env now h pre cur req (basic s) =
    under (λ t. basic t) (BasicHotstuff.Core.handle_req env.hs now h pre req s)
cons_req env now h pre cur req (chained s) =
    under (λ t. chained t) (ChainedHotstuff.Core.handle_req env.hs now h pre req s)
cons_req env now h pre cur req (hotstuff2 s) =
    under (λ t. hotstuff2 t) (Hotstuff2.Core.handle_req env.hs now h pre req s)
cons_req env now h pre cur req (pbft s) =
    some (pbft (Pbft.ViewChange.handle_req env.pb now h pre cur req s))

unfoldable pub cons_msg : Env → Codec → ℤ → List ℕ → Cons → Option Cons
cons_msg env codec now json (basic s) =
    under (λ t. basic t) (BasicHotstuff.Core.handle_b_msg env.hs now (codec.to_msg json) s)
cons_msg env codec now json (chained s) =
    under (λ t. chained t) (ChainedHotstuff.Core.handle_c_msg env.hs now (codec.to_c_msg json) s)
cons_msg env codec now json (hotstuff2 s) =
    under (λ t. hotstuff2 t) (Hotstuff2.Core.handle_h2_msg env.hs now (codec.to_h2_msg json) s)
cons_msg env codec now json (pbft s) =
    under (λ t. pbft t) (Pbft.Core.handle_p_msg env.pb now (codec.to_p_msg json) s)

abbrev pub with_cons : Orderer → Option Cons → Option Orderer
with_cons o none = none
with_cons o (some c) = some (record o { cons = c })

-- HandleReq, HandleMsg: a stopped orderer takes neither
unfoldable pub handle_req : Env → ℤ → ℤ → Bytes → Bytes → List BcRequest → Orderer → Option Orderer
unfolding cons_req
handle_req env now h pre cur req o =
    if o.req_state then with_cons o (cons_req env now h pre cur req o.cons) else some o

unfoldable pub handle_msg : Env → Codec → ℤ → List ℕ → Orderer → Option Orderer
unfolding cons_msg
handle_msg env codec now json o =
    if o.handle_state then with_cons o (cons_msg env codec now json o.cons) else some o

-- FixLeader
unfoldable pub fix_leader : Env → Cons → Cons
unfolding BasicHotstuff.Core.fix_leader ChainedHotstuff.Core.fix_leader
fix_leader env (basic s) = basic (BasicHotstuff.Core.fix_leader env.hs s)
fix_leader env (chained s) = chained (ChainedHotstuff.Core.fix_leader env.hs s)
fix_leader env (hotstuff2 s) = hotstuff2 s
fix_leader env (pbft s) = pbft s

unfoldable pub stop_timers : Cons → Cons
unfolding stop
stop_timers (basic s) = basic (record s { view_timer = stop s.view_timer })
stop_timers (chained s) = chained (record s { view_timer = stop s.view_timer })
stop_timers (hotstuff2 s) = hotstuff2 (record s {
  pm = record (s.pm) { enter_timer = stop s.pm.enter_timer; view_timer = stop s.pm.view_timer };
})
stop_timers (pbft s) =
    pbft (record s { p_timer = record (s.p_timer) { timer = stop s.p_timer.timer } })

-- Stop
unfoldable pub stop_orderer : Orderer → Orderer
unfolding stop_timers
stop_orderer o = record { cons = stop_timers o.cons; handle_state = false; req_state = false }

-- ClearCurrentRound
unfoldable pub clear_current_round : Env → Cons → Cons
unfolding BasicHotstuff.Core.clear_current_round ChainedHotstuff.Core.clear_current_round
clear_current_round env (basic s) = basic (BasicHotstuff.Core.clear_current_round env.hs s)
clear_current_round env (chained s) = chained (ChainedHotstuff.Core.clear_current_round env.hs s)
clear_current_round env (hotstuff2 s) = hotstuff2 s
clear_current_round env (pbft s) = pbft s

-- ResetState
unfoldable pub reset_state : Env → Orderer → Orderer
unfolding clear_current_round
reset_state env o = record {
  cons = clear_current_round env o.cons;
  handle_state = true;
  req_state = true;
}

-- SendMsg of the message that a restart returns, which is of the orderer's own protocol.
sent_b : BasicHotstuff.Handlers.Step → Cons
unfolding BasicHotstuff.State.send_ser_msg
sent_b (s, none) = basic s
sent_b (s, some m) = basic (BasicHotstuff.State.send_ser_msg m s)

sent_c : ChainedHotstuff.Handlers.CStep → Cons
unfolding ChainedHotstuff.State.send_ser_msg
sent_c (s, []) = chained s
sent_c (s, m ∷ ms) = chained (ChainedHotstuff.State.send_ser_msg m s)

sent_h2 : Hotstuff2.Handlers.HStep → Cons
unfolding Hotstuff2.State.send_ser_msg
sent_h2 (s, none) = hotstuff2 s
sent_h2 (s, some m) = hotstuff2 (Hotstuff2.State.send_ser_msg m s)

-- RestartCons
unfoldable pub restart_cons : Env → ℤ → Cons → Option Cons
unfolding sent_b sent_c sent_h2
restart_cons env now (basic s) = under (λ r. sent_b r) (BasicHotstuff.Core.restart env.hs now s)
restart_cons env now (chained s) = under (λ r. sent_c r) (ChainedHotstuff.Core.restart env.hs now s)
restart_cons env now (hotstuff2 s) =
    under (λ r. sent_h2 r) (Hotstuff2.Core.restart env.hs now (record s { ignore_check_qc = true }))
restart_cons env now (pbft s) = some (pbft s)

-- RefreshLeader
unfoldable pub refresh_leader : Cons → Cons
unfolding View.refresh_leader
refresh_leader (basic s) = basic (record s { view = View.refresh_leader s.view })
refresh_leader (chained s) = chained (record s { view = View.refresh_leader s.view })
refresh_leader (hotstuff2 s) = hotstuff2 (record s { view = View.refresh_leader s.view })
refresh_leader (pbft s) = pbft (record s { view = View.refresh_leader s.view })

-- IsReady, for a threshold signer of `sign_num` nodes
unfoldable pub is_ready : ℕ → Cons → Bool
is_ready sign_num (basic s) = s.view.nodes_num == sign_num
is_ready sign_num (chained s) = s.view.nodes_num == sign_num
is_ready sign_num (hotstuff2 s) = s.view.nodes_num == sign_num
is_ready sign_num (pbft s) = true

-- UpdateNodesNum
unfoldable pub update_nodes_num : ℕ → Cons → Cons
unfolding BasicHotstuff.Core.update_nodes_num ChainedHotstuff.Core.update_nodes_num
    Hotstuff2.Core.update_nodes_num Pbft.Core.update_nodes_num View.update_nodes_num
update_nodes_num n (basic s) = basic (BasicHotstuff.Core.update_nodes_num n s)
update_nodes_num n (chained s) = chained (ChainedHotstuff.Core.update_nodes_num n s)
update_nodes_num n (hotstuff2 s) = hotstuff2 (Hotstuff2.Core.update_nodes_num n s)
update_nodes_num n (pbft s) = pbft (Pbft.Core.update_nodes_num n s)
