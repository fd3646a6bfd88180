-- ===== src/BasicHotstuff/Phases.antt =====
-- The phases that a message can lead from one to another.
use dcschain.Base.{◌≡◌, ◌⊎◌, Option, none, some}
use dcschain.BasicHotstuff.Types.{StateType, new_view, prepare, pre_commit, commit, decide, waiting}
use dcschain.BasicHotstuff.State.{BcHotstuff}
use dcschain.BasicHotstuff.Handlers.{Step}

-- The edges of the protocol between two phases, given by their constants.
infix 40 ◌⟶◌
abbrev pub ◌⟶◌ : StateType → StateType → Type 0
p ⟶ q =
    ((p ≡ new_view) × ((q ≡ waiting) ⊎ (q ≡ prepare) ⊎ (q ≡ pre_commit)))
    ⊎ ((p ≡ waiting) × (q ≡ prepare))
    ⊎ ((p ≡ prepare) × (q ≡ pre_commit))
    ⊎ ((p ≡ pre_commit) × (q ≡ commit))
    ⊎ ((p ≡ commit) × (q ≡ decide))

abbrev pub PhaseStep : BcHotstuff → Option Step → Type 0
PhaseStep s none = Unit
PhaseStep s (some (t, r)) = (t.cur_phase ≡ s.cur_phase) ⊎ (s.cur_phase ⟶ t.cur_phase)

-- A new-view message is answered in the commit phase alone.
abbrev AnswersEnd : BcHotstuff → Option Step → Type 0
AnswersEnd s none = Unit
AnswersEnd s (some (t, none)) = Unit
AnswersEnd s (some (t, some r)) = r.m_type ≡ new_view → s.cur_phase ≡ commit

-- What HandleBMsg makes of the phase: it stays, follows an edge, or a decision is executed.
abbrev pub HandledPhase : BcHotstuff → Option BcHotstuff → Type 0
HandledPhase s none = Unit
HandledPhase s (some t) =
    (t.cur_phase ≡ s.cur_phase)
    ⊎ (s.cur_phase ⟶ t.cur_phase)
    ⊎ ((s.cur_phase ≡ commit) × (t.cur_phase ≡ new_view))
