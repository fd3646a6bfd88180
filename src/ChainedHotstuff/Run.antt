-- ===== src/ChainedHotstuff/Run.antt =====
-- A running replica: what happens to it, one event at a time.
use dcschain.Base.{◌*◌, true, List, [], ◌∷◌, Option, none, some, ℤ, if◌then◌else◌, Bytes}
use dcschain.BasicHotstuff.State.{Env}
use dcschain.BasicHotstuff.Core.{BcRequest}
use dcschain.ChainedHotstuff.Types.{CMsg}
use dcschain.ChainedHotstuff.State.{CHotstuff}
use dcschain.ChainedHotstuff.Handlers.{start_view_change}
use dcschain.ChainedHotstuff.Core.{handle_c_msg, handle_req}

-- A message, a batch of requests, the view timer's expiry.
pub data Event : Type 0 where
  deliver : (now : ℤ) → Option CMsg → Event
  request : (now height : ℤ) → Bytes → List BcRequest → Event
  timeout : Event

-- The expiry of timer.go around StartViewChange: the duration is doubled at its end. A stopped timer
-- does not expire.
unfoldable pub expire_view_timer : Env → CHotstuff → CHotstuff
unfolding start_view_change
expire_view_timer env s =
    let t =
      start_view_change env
        (record s { view_timer = record (s.view_timer) { is_stopped = true } }) in
    if s.view_timer.is_stopped
    then s
    else record t { view_timer = record (t.view_timer) { duration = t.view_timer.duration * 2 } }

unfoldable pub step : Env → Event → CHotstuff → Option CHotstuff
unfolding expire_view_timer handle_c_msg handle_req
step env (deliver now payload) s = handle_c_msg env now payload s
step env (request now height pre_hash req) s = handle_req env now height pre_hash req s
step env timeout s = some (expire_view_timer env s)

-- A replica over a sequence of events; `none` once it has panicked.
unfoldable pub run : Env → List Event → CHotstuff → Option CHotstuff
unfolding step
run env [] s = some s
run env (e ∷ es) s = elim (step env e s) [ none ↦ none | some t ↦ run env es t ]
