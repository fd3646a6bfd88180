-- ===== src/ChainedHotstuff/Runs.antt =====
-- Runs of the chained protocol: what every replica keeps, and what cannot make it panic.
use mathlib.Core.Path.{subst}
use dcschain.Base.{◌≡◌, refl, List, [], ◌∷◌, Option, none, some, ℤ, ℕ, ◌<◌, true, Bool, All}
use dcschain.BasicHotstuff.State.{Env}
use dcschain.ChainedHotstuff.State.{CHotstuff, new_chained_hotstuff}
use dcschain.ChainedHotstuff.Collecting.{IsCollecting}
use dcschain.ChainedHotstuff.Steps.{
  StillCollecting, IfRunning, early-IsCollecting, handle_c_msg-IsCollecting,
  handle_req-IsCollecting, expire-IsCollecting,
}
use dcschain.ChainedHotstuff.Run.{Event, deliver, request, timeout, step, run}

weaken : (o : Option CHotstuff) → StillCollecting o → IfRunning o
weaken none c = tt
weaken (some t) c = c

step-IfRunning : (env : Env) (e : Event) (s : CHotstuff) → IsCollecting s → IfRunning (step env e s)
unfolding step
step-IfRunning env (deliver now m) s h = weaken _ (handle_c_msg-IsCollecting env now m s h)
step-IfRunning env (request now height pre_hash req) s h =
    handle_req-IsCollecting env now height pre_hash req s h
step-IfRunning env timeout s h = expire-IsCollecting env s h

run-IfRunning :
    (env : Env) (es : List Event) (s : CHotstuff) → IsCollecting s → IfRunning (run env es s)
unfolding run
run-IfRunning env [] s h = h
run-IfRunning env (e ∷ es) s h =
    next (λ t c. run-IfRunning env es t c) (step env e s) (step-IfRunning env e s h)
  where
    next :
        ((t : CHotstuff) → IsCollecting t → IfRunning (run env es t))
        → (o : Option CHotstuff) → IfRunning o
        → IfRunning (elim o [ none ↦ none | some t ↦ run env es t ])
    next later none c = tt
    next later (some t) c = later t c

-- A replica started by NewChainedHotstuff, after any messages, requests and timeouts: it waits
-- for requests or collects votes only as the leader of its view, all votes that it collects are
-- generic votes of that view, and in the half-generic phase it remembers a proposal, a generic
-- message.
pub run-IsCollecting :
    (env : Env) (timer_duration : ℕ) (cons_id : ℤ) (node_num : ℕ) (has_send_chan : Bool)
    (es : List Event) (t : CHotstuff)
    → run env es (new_chained_hotstuff env.sum_sm3 timer_duration cons_id node_num has_send_chan)
      ≡ some t
    → IsCollecting t
unfolding new_chained_hotstuff
run-IsCollecting env timer_duration cons_id node_num has_send_chan es t done =
    subst IfRunning done (run-IfRunning env es s (early-IsCollecting s refl))
  where
    s : CHotstuff
    s = new_chained_hotstuff env.sum_sm3 timer_duration cons_id node_num has_send_chan

-- Any event but a batch of requests.
abbrev pub IsQuiet : Event → Type 0
IsQuiet (deliver now m) = Unit
IsQuiet (request now height pre_hash req) = ⊥
IsQuiet timeout = Unit

step-StillCollecting :
    (env : Env) (e : Event) (s : CHotstuff)
    → IsQuiet e
    → IsCollecting s
    → StillCollecting (step env e s)
unfolding step
step-StillCollecting env (deliver now m) s q h = handle_c_msg-IsCollecting env now m s h
step-StillCollecting env (request now height pre_hash req) s q h = absurd q
step-StillCollecting env timeout s q h = expire-IsCollecting env s h

quiet_run :
    (env : Env) (es : List Event) (s : CHotstuff)
    → All IsQuiet es
    → IsCollecting s
    → (t : CHotstuff) × (run env es s ≡ some t) × IsCollecting t
unfolding run
quiet_run env [] s q h = (s, refl, h)
quiet_run env (e ∷ es) s q h =
    next (λ u c. quiet_run env es u q.1 c) (step env e s) (step-StillCollecting env e s q.0 h)
  where
    next :
        ((u : CHotstuff)
          → IsCollecting u
          → (t : CHotstuff) × (run env es u ≡ some t) × IsCollecting t)
        → (o : Option CHotstuff) → StillCollecting o
        → (t : CHotstuff) × ((elim o [ none ↦ none | some u ↦ run env es u ]) ≡ some t)
          × IsCollecting t
    next later none c = absurd c
    next later (some u) c = later u c

-- Messages, whatever they hold, and timeouts never make a replica panic or block that collects,
-- counts at least one node and has a channel to send on: it runs to the end of them, and collects
-- there.
pub quiet_run_returns :
    (env : Env) (es : List Event) (s : CHotstuff)
    → 0 < s.view.nodes_num
    → s.has_send_chan ≡ true
    → All IsQuiet es
    → IsCollecting s
    → (t : CHotstuff) × (run env es s ≡ some t) × IsCollecting t
quiet_run_returns env es s nodes chan quiet h = quiet_run env es s quiet h
