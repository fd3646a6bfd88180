-- ===== src/ChainedHotstuff/Routed.antt =====
-- RouteCMsg keeps a replica of the chained protocol collecting.
use dcschain.Base.{
  ◌≡◌, refl, sym, ◌∙◌, ap, if_elim, inl, inr, [], ◌∷◌, ◌==◌, ℤ, All-append, Bool-cases,
  Option-cases, length, leb, Bytes, ==_iff, is_nil,
}
use dcschain.Common.Timer.{Timer, stop}
use dcschain.Quorum.{threshold}
use dcschain.BasicHotstuff.Types.{new_view, generic, generic_vote, half_generic}
use dcschain.BasicHotstuff.State.{Env}
use dcschain.ChainedHotstuff.Types.{CMsg}
use dcschain.ChainedHotstuff.State.{CHotstuff}
use dcschain.ChainedHotstuff.Rules.{
  get_node_name, get_leader_name, is_leader, matching_c_msg, check_c_msg, combine_sign,
}
use dcschain.ChainedHotstuff.Handlers.{
  c_handle_generic, log_generic_vote, generic_certified, generic_quorum, c_handle_generic_vote,
}
use dcschain.ChainedHotstuff.Frame.{c_handle_generic-Moves}
use dcschain.ChainedHotstuff.Core.{route_c_msg}
use dcschain.ChainedHotstuff.Collecting.{
  IsVote, has_proposal, IsCollecting, StepCollects, OptionCollects, IsCollecting-idle,
  Collects-Moves, not_false, Collects-early, c_handle_new_view-Collects,
}

-- The state with the vote logged, which is still not sent.
pub log_generic_vote-IsCollecting :
    (m : CMsg) (s : CHotstuff) → IsCollecting s → IsCollecting (log_generic_vote m s)
unfolding log_generic_vote check_c_msg is_leader get_node_name get_leader_name
log_generic_vote-IsCollecting m s h =
    elim (Bool-cases (matching_c_msg m generic_vote s.view.view_number)) [
      | inr other ↦ rw other h
      | inl vote ↦ rw vote record {
        waits = h.waits;
        leads = h.leads;
        votes = λ p.
            All-append (IsVote s.view.view_number) s.generic_vote_msgs (m ∷ []) (h.votes p)
              (vote, tt);
        round = h.round;
      }
    ]

timed : (s : CHotstuff) (t : Timer) → IsCollecting s → IsCollecting (record s { view_timer = t })
unfolding is_leader get_node_name get_leader_name
timed s t h = record { waits = h.waits; leads = h.leads; votes = h.votes; round = h.round }

generic_certified-Collects :
    (m : CMsg) (sig : Bytes) (s : CHotstuff)
    → IsCollecting s
    → StepCollects (generic_certified m sig s)
unfolding generic_certified
generic_certified-Collects m sig s h =
    if_elim StepCollects (is_nil sig) (IsCollecting-idle s h) (Collects-early _ _ refl)

generic_quorum-Collects :
    (env : Env) (m : CMsg) (s : CHotstuff)
    → IsCollecting s
    → s.cur_phase ≡ half_generic
    → OptionCollects (generic_quorum env m s)
unfolding generic_quorum combine_sign
generic_quorum-Collects env m s h half =
    if_elim OptionCollects (leb (length s.generic_vote_msgs) (threshold s.view.nodes_num))
      (IsCollecting-idle s h)
      (elim (Option-cases s.cur_round_msg) [
        | inl lost ↦ absurd (not_false (sym (h.round half) ∙ ap (λ o. has_proposal o) lost))
        | inr (r, e) ↦ rw e (generic_certified-Collects m _ _ (timed s (stop s.view_timer) h))
      ])

pub log_generic_vote_phase :
    (m : CMsg) (s : CHotstuff) → (log_generic_vote m s).cur_phase ≡ s.cur_phase
unfolding log_generic_vote
log_generic_vote_phase m s =
    if_elim (λ (t : CHotstuff). t.cur_phase ≡ s.cur_phase)
      (check_c_msg m generic_vote s.view.view_number) refl refl

c_handle_generic_vote-Collects :
    (env : Env) (m : CMsg) (s : CHotstuff)
    → IsCollecting s
    → OptionCollects (c_handle_generic_vote env m s)
unfolding c_handle_generic_vote
c_handle_generic_vote-Collects env m s h = elim (Bool-cases (s.cur_phase == half_generic)) [
  | inl half ↦ rw half (
      generic_quorum-Collects env m (log_generic_vote m s) (log_generic_vote-IsCollecting m s h)
        (log_generic_vote_phase m s ∙ (==_iff s.cur_phase half_generic).0 half))
  | inr other ↦ rw other (IsCollecting-idle s h)
]

-- Whatever message arrives, its handler does not panic, and keeps the replica collecting.
pub route_c_msg-Collects :
    (env : Env) (now : ℤ) (m : CMsg) (s : CHotstuff)
    → IsCollecting s
    → OptionCollects (route_c_msg env now m s)
unfolding route_c_msg
route_c_msg-Collects env now m s h =
    if_elim OptionCollects (m.m_type == new_view) (c_handle_new_view-Collects env now m s h) (
      if_elim OptionCollects (m.m_type == generic)
        (Collects-Moves s (c_handle_generic env m s) h (c_handle_generic-Moves env m s))
        (if_elim OptionCollects (m.m_type == generic_vote)
          (c_handle_generic_vote-Collects env m s h) (IsCollecting-idle s h)))
