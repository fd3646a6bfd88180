-- ===== src/Hotstuff2/Run.antt =====
-- A running HotStuff-2 replica: what happens to it, one event at a time.
use dcschain.Base.{◌*◌, true, List, [], ◌∷◌, Option, none, some, ℤ, if◌then◌else◌, Bytes}
use dcschain.Common.Timer.{Timer}
use dcschain.BasicHotstuff.State.{Env}
use dcschain.BasicHotstuff.Core.{BcRequest}
use dcschain.Hotstuff2.Types.{H2Msg}
use dcschain.Hotstuff2.State.{Hotstuff2}
use dcschain.Hotstuff2.Handlers.{start_view_change, enter_expired}
use dcschain.Hotstuff2.Core.{handle_h2_msg, handle_req}

-- A message, a batch of requests, the expiry of the view timer and of the enter timer.
pub data Event : Type 0 where
  deliver : (now : ℤ) → Option H2Msg → Event
  request : (now height : ℤ) → Bytes → List BcRequest → Event
  timeout : Event
  entering : Event

-- A timer that has expired, and its duration doubled, which timer.go does after the action.
abbrev expired : Timer → Timer
expired t = record { duration = t.duration * 2; is_stopped = true }

-- The expiry of the view timer around StartViewChange. A stopped timer does not expire.
unfoldable pub expire_view_timer : Env → Hotstuff2 → Hotstuff2
unfolding start_view_change
expire_view_timer env s =
    if s.pm.view_timer.is_stopped
    then s
    else start_view_change env
        (record s { pm = record (s.pm) { view_timer = expired s.pm.view_timer } })

-- The expiry of the enter timer.
unfoldable pub expire_enter_timer : Hotstuff2 → Hotstuff2
unfolding enter_expired
expire_enter_timer s =
    if s.pm.enter_timer.is_stopped
    then s
    else enter_expired (record s { pm = record (s.pm) { enter_timer = expired s.pm.enter_timer } })

unfoldable pub step : Env → Event → Hotstuff2 → Option Hotstuff2
unfolding expire_view_timer expire_enter_timer handle_h2_msg handle_req
step env (deliver now payload) s = handle_h2_msg env now payload s
step env (request now height pre_hash req) s = handle_req env now height pre_hash req s
step env timeout s = some (expire_view_timer env s)
step env entering s = some (expire_enter_timer s)

-- A replica over a sequence of events; `none` once it has panicked.
unfoldable pub run : Env → List Event → Hotstuff2 → Option Hotstuff2
unfolding step
run env [] s = some s
run env (e ∷ es) s = elim (step env e s) [ none ↦ none | some t ↦ run env es t ]
