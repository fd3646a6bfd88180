-- ===== src/ChainedHotstuff/Votes.antt =====
-- The views in which a replica of the chained protocol votes.
use mathlib.Core.Path.{subst}
use dcschain.Base.{
  ◌≡◌, refl, sym, ◌∙◌, ◌≢◌, inl, inr, true, false, List, [], ◌∷◌, some, arith, ℤ, ◌<ℤ◌, ◌≤ℤ◌, eq_ℤ,
  eq_ℤ_iff, Bool-cases,
}
use dcschain.Common.View.{View, next_view-lt}
use dcschain.Common.View
use dcschain.BasicHotstuff.Types.{generic}
use dcschain.BasicHotstuff.State.{Env}
use dcschain.ChainedHotstuff.Types.{CMsg}
use dcschain.ChainedHotstuff.State.{CHotstuff}
use dcschain.ChainedHotstuff.Rules.{is_leader}
use dcschain.ChainedHotstuff.Handlers.{CStep, c_handle_generic}
use dcschain.ChainedHotstuff.Frame.{Moves, c_handle_generic-Moves}
use dcschain.ChainedHotstuff.Core.{route_c_msg, send_answers, handle_c_msg}
use dcschain.ChainedHotstuff.Steps.{send_answers-Sent}
use dcschain.ChainedHotstuff.Growth.{Grows, run-Grows}
use dcschain.ChainedHotstuff.Run.{Event, deliver, step, run}

-- CHandleGeneric answers a message of its own view only.
answered_view :
    (env : Env) (m : CMsg) (s : CHotstuff)
    → (c_handle_generic env m s).1 ≢ []
    → m.view_number ≡ s.view.view_number
unfolding c_handle_generic
answered_view env m s h = elim (Bool-cases (eq_ℤ m.view_number s.view.view_number)) [
  | inl same ↦ (eq_ℤ_iff m.view_number s.view.view_number).0 same
  | inr other ↦ absurd ((rw other at h) refl)
]

-- One that does not lead its view enters the next as it votes.
voter_advances :
    (s : CHotstuff) (r : CStep)
    → Moves s r
    → r.1 ≢ []
    → is_leader s ≡ false
    → r.0.view ≡ View.next_view s.view
voter_advances s (t, r) (k, inl (v, inl leads)) h follows = absurd (cc_bool (sym leads ∙ follows))
  where
    cc_bool : ¬ (true ≡ false)
    cc_bool e = cc
voter_advances s (t, r) (k, inl (v, inr silent)) h follows = absurd (h silent)
voter_advances s (t, r) (k, inr (v, f)) h follows = v

route_generic :
    (env : Env) (now : ℤ) (m : CMsg) (s : CHotstuff)
    → m.m_type ≡ generic
    → route_c_msg env now m s ≡ some (c_handle_generic env m s)
unfolding route_c_msg
route_generic env now m s e = rw e refl

before_after :
    (a : ℤ) (v w : View) (x b : ℤ)
    → a ≡ v.view_number
    → w ≡ View.next_view v
    → w.view_number ≤ℤ x
    → b ≡ x
    → a <ℤ b
before_after a v w x b first moved grown second =
    let l : v.view_number <ℤ w.view_number = rw moved (next_view-lt v) in
    rw (first, second) (omega arith)

run_deliver :
    (env : Env) (now : ℤ) (m : CMsg) (s : CHotstuff) (es : List Event) (r : CStep)
    → route_c_msg env now m s ≡ some r
    → run env (deliver now (some m) ∷ es) s ≡ run env es (send_answers r.1 r.0)
unfolding run step handle_c_msg
run_deliver env now m s es r e = rw (run, step, handle_c_msg, e) refl

-- A replica that does not lead its view and votes on a message of it votes, whatever comes later,
-- only on messages of later views.
pub later_vote_later :
    (env : Env) (now : ℤ) (m n : CMsg) (s t : CHotstuff) (es : List Event)
    → m.m_type ≡ generic
    → is_leader s ≡ false
    → (c_handle_generic env m s).1 ≢ []
    → run env (deliver now (some m) ∷ es) s ≡ some t
    → (c_handle_generic env n t).1 ≢ []
    → m.view_number <ℤ n.view_number
later_vote_later env now m n s t es type follows vote done again =
    let r = c_handle_generic env m s in
    let u = send_answers r.1 r.0 in
    let moved =
      (send_answers-Sent r.1 r.0).1
      ∙ voter_advances s r (c_handle_generic-Moves env m s) vote follows in
    let rest = sym (run_deliver env now m s es r (route_generic env now m s type)) ∙ done in
    let grown = subst (Grows u) rest (run-Grows env es u) in
    let first = answered_view env m s vote in
    let second = answered_view env n t again in
    before_after m.view_number s.view u.view t.view.view_number n.view_number first moved grown
      second
