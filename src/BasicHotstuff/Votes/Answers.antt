-- ===== src/BasicHotstuff/Votes/Answers.antt =====
-- One answer of a replica, put behind what it had sent before.
use dcschain.BasicHotstuff.Votes.Record.{
  IsVote, view_of, IsOnceVoted, IsOnceVoted-advance, IsOnceVoted-other, IsOnceVoted-vote,
}
use mathlib.Core.Path.{subst}
use dcschain.Base.{
  ◌≡◌, refl, sym, ap, ◌∙◌, ◌≢◌, ◌⊎◌, inl, inr, ◌&&◌, not, List, [], ◌∷◌, ◌++◌, Option, none, some,
  arith, ◌==◌, Bool-cases, ◌<ℤ◌,
}
use dcschain.BasicHotstuff.Types.{new_view, prepare_vote, is_empty, Msg}
use dcschain.BasicHotstuff.State.{ServerMsg, server_msg, BcHotstuff}
use dcschain.BasicHotstuff.Rules.{get_node_name}
use dcschain.BasicHotstuff.Handlers.{Step}
use dcschain.BasicHotstuff.Core.{send_answer, client_msg, signed_by, answer, propose_req}
use dcschain.BasicHotstuff.Moves.{Moves, StepMoves}
use native.Mathlib.Decide.{ℕ_discrete}

abbrev pub IsOnceVoting : BcHotstuff → Type 0
IsOnceVoting s = IsOnceVoted s.view.view_number s.cur_phase s.sent

-- What sending an answer changes.
send_answer_parts :
    (r : Msg) (s : BcHotstuff)
    → let sent = s.sent ++ (server_msg (signed_by s r) ∷ []) in
      ((send_answer r s).view ≡ s.view)
      × ((((send_answer r s).sent ≡ sent) × ((send_answer r s).cur_phase ≡ s.cur_phase))
          ⊎ ((r.m_type ≡ new_view)
              × ((send_answer r s).sent ≡ sent ++ (server_msg (client_msg s) ∷ []))))
unfolding send_answer get_node_name
send_answer_parts r s = elim (Bool-cases (r.m_type == new_view && not (is_empty s.cur_proposal))) [
  | inl executed ↦ rw executed (refl, inr (ground arith, refl))
  | inr kept ↦ rw kept (refl, inl (refl, refl))
]

vn_grows :
    (s t : BcHotstuff) (r : Option Msg)
    → Moves s t r
    → (s.view.view_number ≡ t.view.view_number) ⊎ (s.view.view_number <ℤ t.view.view_number)
vn_grows s t r m = elim m.view_grows [ inl e ↦ inl (ap (λ v. v.view_number) e) | inr l ↦ inr l ]

-- The answer of a step, put behind what was sent before it.
logged_answer :
    (s t : BcHotstuff) (r : Msg) (e : ServerMsg)
    → Moves s t (some r)
    → IsOnceVoting s
    → e.payload.m_type ≡ r.m_type
    → view_of e ≡ r.view_number
    → IsOnceVoted t.view.view_number t.cur_phase (s.sent ++ (e ∷ []))
logged_answer s t r e m h same_type same_view = elim (ℕ_discrete r.m_type prepare_vote) [
  | yes vote ↦
      let (voting, ends, now) = m.answer_fits.0 vote in
      let over : t.cur_phase ≢ new_view = λ z. ground arith in
      IsOnceVoted-advance _ _ t.cur_phase t.cur_phase _
        (IsOnceVoted-vote _ t.cur_phase s.sent _
          (subst (λ p. IsOnceVoted s.view.view_number p s.sent) voting h) over (same_view ∙ now))
        (vn_grows s t (some r) m) (λ z. absurd (over z))
  | no other ↦
      IsOnceVoted-advance _ _ s.cur_phase t.cur_phase _
        (IsOnceVoted-other _ s.cur_phase s.sent e h (λ v. other (sym same_type ∙ v)))
        (vn_grows s t (some r) m) m.phase_left
]

send_answer-IsOnceVoting :
    (s t : BcHotstuff) (r : Msg)
    → Moves s t (some r)
    → IsOnceVoting s
    → IsOnceVoting (send_answer r t)
send_answer-IsOnceVoting s t r m h =
    let own = server_msg (signed_by t r) in
    let sent_to : (xs : List ServerMsg) → s.sent ++ xs ≡ t.sent ++ xs =
      λ xs. ap (λ l. l ++ xs) (sym m.sent_kept) in
    let logged = logged_answer s t r own m h refl refl in
    let (same_view, how) = send_answer_parts r t in
    rw same_view (elim how [
      | inl (sent, phase) ↦
          rw (sent, phase)
            (subst (IsOnceVoted t.view.view_number t.cur_phase) (sent_to (own ∷ [])) logged)
      | inr (answered, sent) ↦
          let later = m.answer_fits.1 answered in
          let not_vote : ¬ IsVote own = λ v. ground arith in
          let all =
            IsOnceVoted-other _ s.cur_phase _ (server_msg (client_msg t))
              (IsOnceVoted-other _ s.cur_phase s.sent own h not_vote) (λ v. ground arith) in
          rw sent (
            subst
              (λ l.
                IsOnceVoted t.view.view_number (send_answer r t).cur_phase
                  (l ++ (server_msg (client_msg t) ∷ [])))
              (sent_to (own ∷ []))
              (IsOnceVoted-advance _ _ s.cur_phase _ _ all (inr later) (λ z. inr later)))
    ])

-- A state that is not panicked keeps the invariant.
abbrev pub OptionVoting : Option BcHotstuff → Type 0
OptionVoting none = Unit
OptionVoting (some s) = IsOnceVoting s

quiet-IsOnceVoting : (s t : BcHotstuff) → Moves s t none → IsOnceVoting s → IsOnceVoting t
quiet-IsOnceVoting s t m h =
    subst (IsOnceVoted t.view.view_number t.cur_phase) (sym m.sent_kept)
      (IsOnceVoted-advance _ _ s.cur_phase t.cur_phase s.sent h (vn_grows s t none m) m.phase_left)

pub answer-IsOnceVoting :
    (s : BcHotstuff) (r : Step) → StepMoves s r → IsOnceVoting s → IsOnceVoting (answer r)
unfolding answer
answer-IsOnceVoting s (t, none) m h = quiet-IsOnceVoting s t m h
answer-IsOnceVoting s (t, some r) m h = send_answer-IsOnceVoting s t r m h

pub propose_req-IsOnceVoting :
    (s : BcHotstuff) (r : Step) → StepMoves s r → IsOnceVoting s → IsOnceVoting (propose_req r)
unfolding propose_req
propose_req-IsOnceVoting s (t, none) m h = quiet-IsOnceVoting s t m h
propose_req-IsOnceVoting s (t, some r) m h =
    subst (λ l. IsOnceVoted t.view.view_number t.cur_phase (l ++ (server_msg r ∷ [])))
      (sym m.sent_kept) (logged_answer s t r (server_msg r) m h refl refl)
