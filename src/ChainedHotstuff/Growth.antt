-- ===== src/ChainedHotstuff/Growth.antt =====
-- A replica of the chained protocol never goes back to an earlier view.
use dcschain.Base.{
  ◌≡◌, refl, ◌∙◌, if_elim, inl, inr, true, not, List, [], ◌∷◌, Option, none, some, arith, ◌==◌, ℤ,
  ◌≤ℤ◌, ◌<ℤ◌, length, leb, Bytes, is_nil,
}
use dcschain.Common.View.{View, next_view-lt}
use dcschain.Common.View
use dcschain.Common.Timer.{stop}
use dcschain.Quorum.{threshold}
use dcschain.BasicHotstuff.Types.{new_view, generic, half_generic, generic_vote, waiting}
use dcschain.BasicHotstuff.State.{Env}
use dcschain.BasicHotstuff.Core.{BcRequest}
use dcschain.ChainedHotstuff.Types.{CMsg}
use dcschain.ChainedHotstuff.State.{CHotstuff}
use dcschain.ChainedHotstuff.Rules.{check_c_msg, combine_sign}
use dcschain.ChainedHotstuff.Handlers.{
  CStep, log_new_view, c_handle_new_view, c_handle_generic, log_generic_vote, generic_certified,
  generic_quorum, c_handle_generic_vote, gen_proposal, start_view_change,
}
use dcschain.ChainedHotstuff.Frame.{Moves, c_handle_generic-Moves}
use dcschain.ChainedHotstuff.Proposals.{
  Proposes, log_new_view-Unmoved, new_view-Proposes, Generates, gen_proposal-Generates,
}
use dcschain.ChainedHotstuff.Core.{
  route_c_msg, send_answers, handle_c_msg, handle_req, propose_req, req_proposal,
}
use dcschain.ChainedHotstuff.Steps.{send_answers-Sent}
use dcschain.ChainedHotstuff.Run.{Event, deliver, request, timeout, expire_view_timer, step, run}

-- The view of `t` is not before that of `s`.
abbrev pub NotBefore : CHotstuff → CHotstuff → Type 0
NotBefore s t = s.view.view_number ≤ℤ t.view.view_number

abbrev pub Grows : CHotstuff → Option CHotstuff → Type 0
Grows s none = Unit
Grows s (some t) = NotBefore s t

abbrev GrowsStep : CHotstuff → Option CStep → Type 0
GrowsStep s none = Unit
GrowsStep s (some (t, r)) = NotBefore s t

NotBefore-same : (s t : CHotstuff) → t.view ≡ s.view → NotBefore s t
NotBefore-same s t e = rw e (omega arith)

next_later :
    (s t : CHotstuff) → t.view ≡ View.next_view s.view → s.view.view_number <ℤ t.view.view_number
next_later s t e = rw e (next_view-lt s.view)

Grows-Moves : (s : CHotstuff) (r : CStep) → Moves s r → GrowsStep s (some r)
Grows-Moves s (t, r) (k, inl (v, h)) = NotBefore-same s t v
Grows-Moves s (t, r) (k, inr (v, h)) = let l = next_later s t v in omega arith

Grows-Proposes :
    (s u : CHotstuff) (o : Option CStep) → u.view ≡ s.view → Proposes u o → GrowsStep s o
Grows-Proposes s u none e p = tt
Grows-Proposes s u (some (t, [])) e (still, p) = NotBefore-same s t (still.0 ∙ e)
Grows-Proposes s u (some (t, r ∷ rs)) e (one, l, o, d, b, (h, g, hi, (a, c, x))) =
    NotBefore-same s t (c.1 ∙ e)

generic_certified-Grows :
    (m : CMsg) (sig : Bytes) (s : CHotstuff) → GrowsStep s (some (generic_certified m sig s))
unfolding generic_certified
generic_certified-Grows m sig s =
    if_elim (λ (r : CStep). NotBefore s r.0) (is_nil sig) (NotBefore-same s s refl)
      (let l = next_view-lt s.view in omega arith)

generic_quorum-Grows : (env : Env) (m : CMsg) (s : CHotstuff) → GrowsStep s (generic_quorum env m s)
unfolding generic_quorum
generic_quorum-Grows env m s =
    if_elim (GrowsStep s) (leb (length s.generic_vote_msgs) (threshold s.view.nodes_num))
      (NotBefore-same s s refl) (combined (combine_sign env.signer t.generic_vote_msgs t))
  where
    t : CHotstuff
    t = record s { view_timer = stop s.view_timer }

    combined :
        (o : Option Bytes)
        → GrowsStep s (elim o [ none ↦ none | some sig ↦ some (generic_certified m sig t) ])
    combined none = tt
    combined (some sig) = generic_certified-Grows m sig t

log_generic_vote_view : (m : CMsg) (s : CHotstuff) → (log_generic_vote m s).view ≡ s.view
unfolding log_generic_vote
log_generic_vote_view m s =
    if_elim (λ (t : CHotstuff). t.view ≡ s.view) (check_c_msg m generic_vote s.view.view_number)
      refl refl

c_handle_generic_vote-Grows :
    (env : Env) (m : CMsg) (s : CHotstuff) → GrowsStep s (c_handle_generic_vote env m s)
unfolding c_handle_generic_vote
c_handle_generic_vote-Grows env m s =
    if_elim (GrowsStep s) (not (s.cur_phase == half_generic)) (NotBefore-same s s refl)
      (after (generic_quorum env m t) (generic_quorum-Grows env m t))
  where
    t : CHotstuff
    t = log_generic_vote m s

    after : (o : Option CStep) → GrowsStep t o → GrowsStep s o
    after none g = tt
    after (some (u, r)) g = rw (log_generic_vote_view m s) at g

route_c_msg-Grows :
    (env : Env) (now : ℤ) (m : CMsg) (s : CHotstuff) → GrowsStep s (route_c_msg env now m s)
unfolding route_c_msg
route_c_msg-Grows env now m s =
    if_elim (GrowsStep s) (m.m_type == new_view)
      (Grows-Proposes s (log_new_view m s) (c_handle_new_view env now m s)
        (log_new_view-Unmoved m s).1 (new_view-Proposes env now m s))
      (if_elim (GrowsStep s) (m.m_type == generic)
        (Grows-Moves s (c_handle_generic env m s) (c_handle_generic-Moves env m s))
        (if_elim (GrowsStep s) (m.m_type == generic_vote) (c_handle_generic_vote-Grows env m s)
          (NotBefore-same s s refl)))

send_answers-Grows :
    (s : CHotstuff) (t : CHotstuff) (rs : List CMsg)
    → NotBefore s t
    → NotBefore s (send_answers rs t)
send_answers-Grows s t rs g = rw (send_answers-Sent rs t).1 g

handle_c_msg-Grows :
    (env : Env) (now : ℤ) (payload : Option CMsg) (s : CHotstuff)
    → Grows s (handle_c_msg env now payload s)
unfolding handle_c_msg
handle_c_msg-Grows env now none s = NotBefore-same s s refl
handle_c_msg-Grows env now (some m) s =
    answered (route_c_msg env now m s) (route_c_msg-Grows env now m s)
  where
    answered :
        (o : Option CStep)
        → GrowsStep s o
        → Grows s (elim o [ none ↦ none | some r ↦ some (send_answers r.1 r.0) ])
    answered none g = tt
    answered (some (t, rs)) g = send_answers-Grows s t rs g

handle_req-Grows :
    (env : Env) (now height : ℤ) (pre_hash : Bytes) (req : List BcRequest) (s : CHotstuff)
    → Grows s (handle_req env now height pre_hash req s)
unfolding handle_req propose_req
handle_req-Grows env now height pre_hash req s =
    if_elim (Grows s) (s.cur_phase == waiting)
      (proposed (gen_proposal env now t) (gen_proposal-Generates env now t))
      (NotBefore-same s s refl)
  where
    t : CHotstuff
    t = record s { cur_proposal = req_proposal env height pre_hash req }

    proposed :
        (o : Option CStep)
        → Generates t o
        → Grows s (elim o [ none ↦ none | some r ↦ some (propose_req r) ])
    proposed none g = tt
    proposed (some (u, [])) g = rw g (NotBefore-same s t refl)
    proposed (some (u, r ∷ rs)) (one, over, (h, high, (a, c, x))) =
        NotBefore-same s (propose_req (u, r ∷ rs)) c.1

start_view_change-Grows : (env : Env) (s : CHotstuff) → NotBefore s (start_view_change env s)
unfolding start_view_change
start_view_change-Grows env s = let l = next_view-lt s.view in ground (arith, l)

expire-Grows : (env : Env) (s : CHotstuff) → NotBefore s (expire_view_timer env s)
unfolding expire_view_timer
expire-Grows env s = if_elim (NotBefore s) s.view_timer.is_stopped (NotBefore-same s s refl) (
    start_view_change-Grows env
      (record s { view_timer = record (s.view_timer) { is_stopped = true } }))

step-Grows : (env : Env) (e : Event) (s : CHotstuff) → Grows s (step env e s)
unfolding step
step-Grows env (deliver now m) s = handle_c_msg-Grows env now m s
step-Grows env (request now height pre_hash req) s = handle_req-Grows env now height pre_hash req s
step-Grows env timeout s = expire-Grows env s

pub run-Grows : (env : Env) (es : List Event) (s : CHotstuff) → Grows s (run env es s)
unfolding run
run-Grows env [] s = NotBefore-same s s refl
run-Grows env (e ∷ es) s = next (λ u. run-Grows env es u) (step env e s) (step-Grows env e s)
  where
    next :
        ((u : CHotstuff) → Grows u (run env es u))
        → (o : Option CHotstuff) → Grows s o
        → Grows s (elim o [ none ↦ none | some u ↦ run env es u ])
    next later none g = tt
    next later (some u) g = on (run env es u) (later u)
      where
        on : (o : Option CHotstuff) → Grows u o → Grows s o
        on none k = tt
        on (some v) k = omega arith
