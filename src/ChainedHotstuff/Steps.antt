-- ===== src/ChainedHotstuff/Steps.antt =====
-- One event of a replica of the chained protocol: a message, a batch of requests, an expiry.
use mathlib.Core.Path.{subst}
use dcschain.Base.{
  ◌≡◌, refl, sym, ◌∙◌, ap, if_elim, inl, inr, true, ◌||◌, ◌&&◌, not, List, [], ◌∷◌, Option, none,
  some, arith, ◌==◌, ℤ, Bool-cases, length, Bytes, elems, ==_iff,
}
use dcschain.BasicHotstuff.Types.{new_view, generic, waiting}
use dcschain.BasicHotstuff.State.{Env}
use dcschain.BasicHotstuff.Core.{BcRequest}
use dcschain.ChainedHotstuff.Types.{CMsg}
use dcschain.ChainedHotstuff.State.{CHotstuff, send_ser_msg}
use dcschain.ChainedHotstuff.Rules.{get_node_name, is_leader}
use dcschain.ChainedHotstuff.Handlers.{CStep, gen_proposal, start_view_change}
use dcschain.ChainedHotstuff.Frame.{is_leader_same}
use dcschain.ChainedHotstuff.Proposals.{Generates, gen_proposal-Generates}
use dcschain.ChainedHotstuff.Core.{
  route_c_msg, remember, report_executed, send_answer, send_answers, handle_c_msg, req_proposal,
  propose_req, handle_req,
}
use dcschain.ChainedHotstuff.Collecting.{
  IsCollecting, Collects, OptionCollects, has_proposal, proposes, Collects-built, Collects-early,
  or_true,
}
use dcschain.ChainedHotstuff.Routed.{route_c_msg-Collects}
use dcschain.ChainedHotstuff.Run.{expire_view_timer}

-- What sending an answer keeps.
abbrev pub Sends : CHotstuff → CMsg → CHotstuff → Type 0
Sends s r t =
    (t.cur_phase ≡ s.cur_phase)
    × (t.view ≡ s.view)
    × (t.cons_id ≡ s.cons_id)
    × (t.generic_vote_msgs ≡ s.generic_vote_msgs)
    × (((r.m_type == generic) || has_proposal s.cur_round_msg) ≡ true
        → has_proposal t.cur_round_msg ≡ true)

remember-Sends : (m : CMsg) (s : CHotstuff) → Sends s m (remember m s)
unfolding remember
remember-Sends m s = elim (Bool-cases (m.m_type == generic)) [
  | inl proposal ↦ rw proposal (refl, refl, refl, refl, λ h. proposal)
  | inr other ↦ rw other (refl, refl, refl, refl, λ h. h)
]

report_executed-Sends :
    (m : CMsg) (s : CHotstuff)
    → let t = report_executed m s in
      (t.cur_phase ≡ s.cur_phase)
      × (t.view ≡ s.view)
      × (t.cons_id ≡ s.cons_id)
      × (t.generic_vote_msgs ≡ s.generic_vote_msgs)
      × (t.cur_round_msg ≡ s.cur_round_msg)
unfolding report_executed
report_executed-Sends m s =
    elim (Bool-cases (
      m.m_type == new_view
      && (s.execute_state && not (length (elems s.blocks.at3.blk_hdr.validation) == 0)))) [
        | inl told ↦ rw told (refl, refl, refl, refl, refl)
        | inr quiet ↦ rw quiet (refl, refl, refl, refl, refl)
      ]

send_answer-Sends : (r : CMsg) (s : CHotstuff) → Sends s r (send_answer r s)
unfolding send_answer
send_answer-Sends r s =
    let m = record r { send_node = get_node_name s } in
    let (phase, view, number, votes, round) = remember-Sends m s in
    let (phases, views, numbers, votess, rounds) =
      report_executed-Sends m (send_ser_msg m (remember m s)) in
    (
      phases ∙ phase,
      views ∙ view,
      numbers ∙ number,
      votess ∙ votes,
      λ h. ap (λ o. has_proposal o) rounds ∙ round h,
    )

abbrev pub Sent : CHotstuff → List CMsg → CHotstuff → Type 0
Sent s rs t =
    (t.cur_phase ≡ s.cur_phase)
    × (t.view ≡ s.view)
    × (t.cons_id ≡ s.cons_id)
    × (t.generic_vote_msgs ≡ s.generic_vote_msgs)
    × ((proposes rs || has_proposal s.cur_round_msg) ≡ true → has_proposal t.cur_round_msg ≡ true)

pub send_answers-Sent : (rs : List CMsg) (s : CHotstuff) → Sent s rs (send_answers rs s)
unfolding send_answers
send_answers-Sent [] s = (refl, refl, refl, refl, λ h. h)
send_answers-Sent (r ∷ rs) s =
    let (phase, view, number, votes, round) = send_answer-Sends r s in
    let (phases, views, numbers, votess, rounds) = send_answers-Sent rs (send_answer r s) in
    (
      phases ∙ phase,
      views ∙ view,
      numbers ∙ number,
      votess ∙ votes,
      λ h. rounds (rw (round h) (or_true (proposes rs))),
    )

-- Once its answers are sent, a replica is collecting again.
send_answers-IsCollecting :
    (rs : List CMsg) (s : CHotstuff) → Collects s rs → IsCollecting (send_answers rs s)
send_answers-IsCollecting rs s h =
    let (phase, view, number, votes, round) = send_answers-Sent rs s in
    let lead = is_leader_same s (send_answers rs s) number view in
    record {
      waits = λ p. lead ∙ h.waits (sym phase ∙ p);
      leads = λ p. lead ∙ h.leads (sym phase ∙ p);
      votes = λ p. rw (votes, view) (h.votes (sym phase ∙ p));
      round = λ p. round (h.round (sym phase ∙ p));
    }

-- A replica that collects, and whose event did not make it panic.
abbrev pub StillCollecting : Option CHotstuff → Type 0
StillCollecting none = ⊥
StillCollecting (some t) = IsCollecting t

pub handle_c_msg-IsCollecting :
    (env : Env) (now : ℤ) (payload : Option CMsg) (s : CHotstuff)
    → IsCollecting s
    → StillCollecting (handle_c_msg env now payload s)
unfolding handle_c_msg
handle_c_msg-IsCollecting env now none s h = h
handle_c_msg-IsCollecting env now (some m) s h =
    answered (route_c_msg env now m s) (route_c_msg-Collects env now m s h)
  where
    answered :
        (o : Option CStep)
        → OptionCollects o
        → StillCollecting (elim o [ none ↦ none | some r ↦ some (send_answers r.1 r.0) ])
    answered none c = c
    answered (some (t, rs)) c = send_answers-IsCollecting rs t c

start_view_change-early :
    (env : Env) (s : CHotstuff) → (start_view_change env s).cur_phase ≡ new_view
unfolding start_view_change
start_view_change-early env s = ground arith

-- A collecting replica in the new-view phase is so for want of a question.
pub early-IsCollecting : (t : CHotstuff) → t.cur_phase ≡ new_view → IsCollecting t
early-IsCollecting t e =
    let c = Collects-early t [] e in
    record { waits = c.waits; leads = c.leads; votes = c.votes; round = c.round }

pub expire-IsCollecting :
    (env : Env) (s : CHotstuff) → IsCollecting s → IsCollecting (expire_view_timer env s)
unfolding expire_view_timer
expire-IsCollecting env s h = if_elim IsCollecting s.view_timer.is_stopped h (
    early-IsCollecting _ (
      start_view_change-early env
        (record s { view_timer = record (s.view_timer) { is_stopped = true } })))

-- What holds of a replica unless it has panicked.
abbrev pub IfRunning : Option CHotstuff → Type 0
IfRunning none = Unit
IfRunning (some t) = IsCollecting t

pub handle_req-IsCollecting :
    (env : Env) (now height : ℤ) (pre_hash : Bytes) (req : List BcRequest) (s : CHotstuff)
    → IsCollecting s
    → IfRunning (handle_req env now height pre_hash req s)
unfolding handle_req propose_req
handle_req-IsCollecting env now height pre_hash req s h =
    elim (Bool-cases (s.cur_phase == waiting)) [
      | inr other ↦ rw other h
      | inl idle ↦ rw idle (
          proposed (gen_proposal env now t) (gen_proposal-Generates env now t)
            (is_leader_same s t refl refl ∙ h.waits ((==_iff s.cur_phase waiting).0 idle)))
    ]
  where
    t : CHotstuff
    t = record s { cur_proposal = req_proposal env height pre_hash req }

    requested : IsCollecting t
    requested =
        let lead = is_leader_same s t refl refl in
        record {
          waits = λ p. lead ∙ h.waits p;
          leads = λ p. lead ∙ h.leads p;
          votes = h.votes;
          round = h.round;
        }

    proposed :
        (o : Option CStep)
        → Generates t o
        → is_leader t ≡ true
        → IfRunning (elim o [ none ↦ none | some r ↦ some (propose_req r) ])
    proposed none g leads = tt
    proposed (some (u, [])) g leads = subst IsCollecting (sym g) requested
    proposed (some (u, r ∷ rs)) (one, over, (m, high, b)) leads =
        let c = Collects-built t m u r rs leads b in
        let lead = is_leader_same u (propose_req (u, r ∷ rs)) refl refl in
        record {
          waits = λ p. lead ∙ c.waits p;
          leads = λ p. lead ∙ c.leads p;
          votes = c.votes;
          round = λ p. rw b.0.0 refl;
        }
