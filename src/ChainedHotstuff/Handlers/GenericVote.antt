-- ===== src/ChainedHotstuff/Handlers/GenericVote.antt =====
-- core/generic.go: CHandleGenericVote. The leader collects votes for its proposal.
use dcschain.Base.{
  not, [], ◌∷◌, ◌++◌, Option, none, some, ◌==◌, leb, if◌then◌else◌, Bytes, is_nil, length,
}
use dcschain.Common.View
use dcschain.Common.Timer.{start, stop}
use dcschain.Quorum.{threshold}
use dcschain.BasicHotstuff.Types.{new_view, generic, generic_vote, half_generic, empty_proposal}
use dcschain.BasicHotstuff.State.{Env}
use dcschain.ChainedHotstuff.Types.{ChainedQc, CMsg}
use dcschain.ChainedHotstuff.State.{CHotstuff}
use dcschain.ChainedHotstuff.Rules.{check_c_msg, combine_sign}
use dcschain.ChainedHotstuff.Handlers.NewView.{CStep}
use dcschain.ChainedHotstuff.Handlers.Generic.{new_view_msg}

unfoldable pub log_generic_vote : CMsg → CHotstuff → CHotstuff
unfolding check_c_msg
log_generic_vote m s =
    if check_c_msg m generic_vote s.view.view_number
    then record s { generic_vote_msgs = s.generic_vote_msgs ++ (m ∷ []) }
    else s

-- CHandleGenericVote from the combined signature on.
unfoldable pub generic_certified : CMsg → Bytes → CHotstuff → CStep
unfolding new_view_msg View.next_view start
generic_certified m sig s =
    let qc : ChainedQc = record {
      q_type = generic;
      view_number = m.view_number;
      hs_nodes = m.hs_nodes;
      sign = sig;
    } in
    let t = record s {
      generic_qc = qc;
      view = View.next_view s.view;
      cur_phase = new_view;
      cur_proposal = empty_proposal;
      view_timer = start s.view_timer;
    } in
    if is_nil sig then (s, []) else (t, new_view_msg t ∷ [])

-- CHandleGenericVote from the check of the threshold on; `none` is a panic.
unfoldable pub generic_quorum : Env → CMsg → CHotstuff → Option CStep
unfolding generic_certified combine_sign stop
generic_quorum env m s =
    let t = record s { view_timer = stop s.view_timer } in
    if leb (length s.generic_vote_msgs) (threshold s.view.nodes_num)
    then some (s, [])
    else elim (combine_sign env.signer t.generic_vote_msgs t) [
      | none ↦ none
      | some sig ↦ some (generic_certified m sig t)
    ]

unfoldable pub c_handle_generic_vote : Env → CMsg → CHotstuff → Option CStep
unfolding log_generic_vote generic_quorum
c_handle_generic_vote env m s =
    if not (s.cur_phase == half_generic)
    then some (s, [])
    else generic_quorum env m (log_generic_vote m s)
