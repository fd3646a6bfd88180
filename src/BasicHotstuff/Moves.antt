-- ===== src/BasicHotstuff/Moves.antt =====
-- What one handler may do to the view, the phase and the answer.
use dcschain.Base.{◌≡◌, ◌⊎◌, Option, none, some, arith, ℤ, pos, ◌<ℤ◌, +ℤ_parts}
use dcschain.BasicHotstuff.Types.{new_view, prepare, prepare_vote, Msg}
use dcschain.BasicHotstuff.State.{Env, BcHotstuff}
use dcschain.BasicHotstuff.Handlers.{
  Step, handle_new_view, new_view_quorum, gen_proposal, handle_prepare, handle_prepare_vote,
  handle_pre_commit, handle_pre_commit_vote, handle_commit, handle_commit_vote, handle_decide,
}
use dcschain.BasicHotstuff.Core.{route_b_msg}

-- A prepare vote is cast in the new-view phase, for the current view, and ends that phase; a
-- new-view message is answered only by a change of view.
abbrev pub AnswerFits : BcHotstuff → BcHotstuff → Option Msg → Type 0
AnswerFits s t none = Unit
AnswerFits s t (some m) =
    (m.m_type ≡ prepare_vote
      → (s.cur_phase ≡ new_view) × (t.cur_phase ≡ prepare) × (m.view_number ≡ s.view.view_number))
    × (m.m_type ≡ new_view → s.view.view_number <ℤ t.view.view_number)

pub record Moves (s t : BcHotstuff) (r : Option Msg) : Type 0 where
  pub sent_kept : t.sent ≡ s.sent
  pub view_grows : (s.view ≡ t.view) ⊎ (s.view.view_number <ℤ t.view.view_number)
  pub phase_left :
      t.cur_phase ≡ new_view → (s.cur_phase ≡ new_view) ⊎ (s.view.view_number <ℤ t.view.view_number)
  pub answer_fits : AnswerFits s t r

abbrev pub StepMoves : BcHotstuff → Step → Type 0
StepMoves s (t, r) = Moves s t r

pub handle_prepare-Moves :
    (env : Env) (m : Msg) (s : BcHotstuff) → StepMoves s (handle_prepare env m s)
unfolding handle_prepare
handle_prepare-Moves env m s = ground arith

handle_prepare_vote-Moves :
    (env : Env) (m : Msg) (s : BcHotstuff) → StepMoves s (handle_prepare_vote env m s)
unfolding handle_prepare_vote
handle_prepare_vote-Moves env m s = ground arith

handle_pre_commit-Moves :
    (env : Env) (m : Msg) (s : BcHotstuff) → StepMoves s (handle_pre_commit env m s)
unfolding handle_pre_commit
handle_pre_commit-Moves env m s = ground arith

handle_pre_commit_vote-Moves :
    (env : Env) (m : Msg) (s : BcHotstuff) → StepMoves s (handle_pre_commit_vote env m s)
unfolding handle_pre_commit_vote
handle_pre_commit_vote-Moves env m s = ground arith

handle_commit-Moves : (env : Env) (m : Msg) (s : BcHotstuff) → StepMoves s (handle_commit env m s)
unfolding handle_commit
handle_commit-Moves env m s = ground arith

handle_commit_vote-Moves :
    (env : Env) (m : Msg) (s : BcHotstuff) → StepMoves s (handle_commit_vote env m s)
unfolding handle_commit_vote
handle_commit_vote-Moves env m s = ground arith

handle_decide-Moves : (env : Env) (m : Msg) (s : BcHotstuff) → StepMoves s (handle_decide env m s)
unfolding handle_decide
handle_decide-Moves env m s = ground (arith, +ℤ_parts s.view.view_number (pos 1))

-- Where a handler may panic, what holds of its result when it does not.
abbrev pub OptionMoves : BcHotstuff → Option Step → Type 0
OptionMoves s none = Unit
OptionMoves s (some r) = StepMoves s r

new_view_quorum-Moves :
    (env : Env) (now : ℤ) (s : BcHotstuff) → OptionMoves s (new_view_quorum env now s)
unfolding new_view_quorum
new_view_quorum-Moves env now s = ground arith

pub gen_proposal-Moves :
    (env : Env) (now : ℤ) (s : BcHotstuff) → OptionMoves s (gen_proposal env now s)
unfolding gen_proposal
gen_proposal-Moves env now s = ground arith

handle_new_view-Moves :
    (env : Env) (now : ℤ) (m : Msg) (s : BcHotstuff) → OptionMoves s (handle_new_view env now m s)
unfolding handle_new_view
handle_new_view-Moves env now m s = ground arith

pub route_b_msg-Moves :
    (env : Env) (now : ℤ) (m : Msg) (s : BcHotstuff) → OptionMoves s (route_b_msg env now m s)
unfolding route_b_msg
route_b_msg-Moves env now m s = ground (
  arith,
  handle_new_view-Moves env now m s,
  handle_prepare-Moves env m s,
  handle_prepare_vote-Moves env m s,
  handle_pre_commit-Moves env m s,
  handle_pre_commit_vote-Moves env m s,
  handle_commit-Moves env m s,
  handle_commit_vote-Moves env m s,
  handle_decide-Moves env m s,
)
