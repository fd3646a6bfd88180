-- ===== src/BasicHotstuff/Votes.antt =====
-- The prepare votes of one replica over a run of basic HotStuff.
mod Record
mod Answers
pub use Record.{In, IsVote, view_of}
use Record.{IsOnceVoted, IsOnceVoted-advance, IsOnceVoted-other, IsOnceVoted-vote}
use Answers.{IsOnceVoting, OptionVoting, answer-IsOnceVoting, propose_req-IsOnceVoting}
use mathlib.Core.Path.{subst}
use dcschain.Base.{
  ◌*◌, ◌≡◌, refl, sym, ap, ◌∙◌, ◌≢◌, ◌⊎◌, inl, inr, Bool, true, false, ◌&&◌, not, List, [], ◌∷◌,
  ◌++◌, Option, none, some, arith, ◌==◌, if◌then◌else◌, Bool-cases, ℤ, pos, ◌<ℤ◌, +ℤ_parts, Bytes,
}
use dcschain.Common.View
use dcschain.BasicHotstuff.Types.{new_view, prepare_vote, waiting, is_empty, Msg}
use dcschain.BasicHotstuff.State.{Env, ServerMsg, server_msg, BcHotstuff}
use dcschain.BasicHotstuff.Rules.{get_node_name}
use dcschain.BasicHotstuff.Handlers.{Step, gen_proposal, start_view_change, view_change_msg}
use dcschain.BasicHotstuff.Core.{
  route_b_msg, send_answer, client_msg, signed_by, answer, handle_b_msg, BcRequest, req_proposal,
  propose_req, handle_req, Event, deliver, request, timeout, expire_view_timer, step, run,
}
use dcschain.BasicHotstuff.Moves.{
  Moves, StepMoves, OptionMoves, route_b_msg-Moves, gen_proposal-Moves,
}
use native.Mathlib.Decide.{ℕ_discrete}

handle_b_msg-IsOnceVoting :
    (env : Env) (now : ℤ) (payload : Option Msg) (s : BcHotstuff)
    → IsOnceVoting s
    → OptionVoting (handle_b_msg env now payload s)
unfolding handle_b_msg
handle_b_msg-IsOnceVoting env now none s h = h
handle_b_msg-IsOnceVoting env now (some m) s h =
    go (route_b_msg env now m s) (route_b_msg-Moves env now m s)
  where
    go :
        (r : Option Step)
        → OptionMoves s r
        → OptionVoting (elim r [ none ↦ none | some q ↦ some (answer q) ])
    go none moves = tt
    go (some r) moves = answer-IsOnceVoting s r moves h

handle_req-IsOnceVoting :
    (env : Env) (now height : ℤ) (pre_hash : Bytes) (req : List BcRequest) (s : BcHotstuff)
    → IsOnceVoting s
    → OptionVoting (handle_req env now height pre_hash req s)
unfolding handle_req
handle_req-IsOnceVoting env now height pre_hash req s h =
    go (s.cur_phase == waiting) (gen_proposal env now t) (gen_proposal-Moves env now t)
  where
    t : BcHotstuff
    t = record s { cur_proposal = req_proposal env height pre_hash req }

    go :
        (b : Bool) (r : Option Step)
        → OptionMoves t r
        → OptionVoting
            (if b then elim r [ none ↦ none | some q ↦ some (propose_req q) ] else some t)
    go false r moves = h
    go true none moves = tt
    go true (some r) moves = propose_req-IsOnceVoting t r moves h

-- What a view change does to the view and to what was sent.
start_view_change_parts :
    (env : Env) (s : BcHotstuff)
    → let t = record s { view = View.next_view s.view } in
      (s.view.view_number <ℤ (start_view_change env s).view.view_number)
      × (((start_view_change env s).sent ≡ s.sent)
          ⊎ ((start_view_change env s).sent ≡ s.sent ++ (server_msg (view_change_msg env t) ∷ [])))
unfolding start_view_change
start_view_change_parts env s = ground (arith, +ℤ_parts s.view.view_number (pos 1))

view_change_msg_type : (env : Env) (s : BcHotstuff) → (view_change_msg env s).m_type ≡ new_view
unfolding view_change_msg
view_change_msg_type env s = refl

start_view_change-IsOnceVoting :
    (env : Env) (s : BcHotstuff) → IsOnceVoting s → IsOnceVoting (start_view_change env s)
start_view_change-IsOnceVoting env s h =
    let (later, sent) = start_view_change_parts env s in
    elim sent [
      | inl same ↦ rw same (IsOnceVoted-advance _ _ s.cur_phase _ _ h (inr later) (λ z. inr later))
      | inr more ↦ rw more (
          IsOnceVoted-advance _ _ s.cur_phase _ _
            (IsOnceVoted-other _ s.cur_phase s.sent _ h (λ v.
              ground (arith, view_change_msg_type env (record s { view = View.next_view s.view }))))
            (inr later) (λ z. inr later))
    ]

expire-IsOnceVoting :
    (env : Env) (s : BcHotstuff) → IsOnceVoting s → IsOnceVoting (expire_view_timer env s)
unfolding expire_view_timer
expire-IsOnceVoting env s h = go s.view_timer.is_stopped
  where
    t : BcHotstuff
    t =
        start_view_change env
          (record s { view_timer = record (s.view_timer) { is_stopped = true } })

    go :
        (b : Bool)
        → IsOnceVoting (
            if b then s else record t {
              view_timer = record (t.view_timer) { duration = t.view_timer.duration * 2 };
            })
    go true = h
    go false =
        start_view_change-IsOnceVoting env
          (record s { view_timer = record (s.view_timer) { is_stopped = true } }) h

step-IsOnceVoting :
    (env : Env) (e : Event) (s : BcHotstuff) → IsOnceVoting s → OptionVoting (step env e s)
unfolding step
step-IsOnceVoting env (deliver now m) s h = handle_b_msg-IsOnceVoting env now m s h
step-IsOnceVoting env (request now height pre_hash req) s h =
    handle_req-IsOnceVoting env now height pre_hash req s h
step-IsOnceVoting env timeout s h = expire-IsOnceVoting env s h

run-IsOnceVoting :
    (env : Env) (es : List Event) (s : BcHotstuff) → IsOnceVoting s → OptionVoting (run env es s)
unfolding run
run-IsOnceVoting env [] s h = h
run-IsOnceVoting env (e ∷ es) s h =
    go (λ t v. run-IsOnceVoting env es t v) (step env e s) (step-IsOnceVoting env e s h)
  where
    go :
        ((t : BcHotstuff) → IsOnceVoting t → OptionVoting (run env es t))
        → (o : Option BcHotstuff) → OptionVoting o
        → OptionVoting (elim o [ none ↦ none | some t ↦ run env es t ])
    go later none v = tt
    go later (some t) v = later t v

-- A replica that starts with nothing sent, and then takes any messages, requests and timeouts,
-- sends at most one prepare vote for each view: two votes for the same view are the same message.
pub run_votes_once :
    (env : Env) (es : List Event) (s t : BcHotstuff)
    → s.sent ≡ []
    → run env es s ≡ some t
    → (d e : ServerMsg) → In d t.sent
    → In e t.sent
    → IsVote d
    → IsVote e
    → view_of d ≡ view_of e
    → d ≡ e
run_votes_once env es s t none_sent done =
    (subst OptionVoting done (run-IsOnceVoting env es s start)).unique
  where
    start : IsOnceVoting s
    start =
        rw none_sent record {
          bounded = λ e i. absurd i;
          fresh = λ z e i. absurd i;
          unique = λ d e i. absurd i;
        }
