-- ===== src/BasicHotstuff/Routing.antt =====
-- RouteBMsg by cases: what holds of every handler's result holds of the routed one.
use dcschain.Base.{Option, none, some, ℤ, ◌==◌, if_elim}
use dcschain.BasicHotstuff.Types.{Msg}
use dcschain.BasicHotstuff.State.{Env, BcHotstuff}
use dcschain.BasicHotstuff.Handlers.{
  Step, handle_new_view, handle_prepare, handle_prepare_vote, handle_pre_commit,
  handle_pre_commit_vote, handle_commit, handle_commit_vote, handle_decide,
}
use dcschain.BasicHotstuff.Core.{route_b_msg}

pub route_b_msg_cases :
    (env : Env) (now : ℤ) (m : Msg) (s : BcHotstuff) (P : Option Step → Type 0)
    → P (handle_new_view env now m s)
    → P (some (handle_prepare env m s))
    → P (some (handle_prepare_vote env m s))
    → P (some (handle_pre_commit env m s))
    → P (some (handle_pre_commit_vote env m s))
    → P (some (handle_commit env m s))
    → P (some (handle_commit_vote env m s))
    → P (some (handle_decide env m s))
    → P (some (s, none))
    → P (route_b_msg env now m s)
unfolding route_b_msg
route_b_msg_cases env now m s P h0 h1 h2 h3 h4 h5 h6 h7 unknown = if_elim P (m.m_type == 0) h0 (
    if_elim P (m.m_type == 1) h1 (
      if_elim P (m.m_type == 2) h2 (
        if_elim P (m.m_type == 3) h3 (
          if_elim P (m.m_type == 4) h4 (
            if_elim P (m.m_type == 5) h5
              (if_elim P (m.m_type == 6) h6 (if_elim P (m.m_type == 7) h7 unknown)))))))
