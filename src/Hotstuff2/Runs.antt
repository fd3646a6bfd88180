-- ===== src/Hotstuff2/Runs.antt =====
-- Runs of a HotStuff-2 replica: how each event treats its locked nodes and blocks, and how runs end.
use dcschain.Base.{
  ◌≡◌, refl, if_elim, List, [], ◌∷◌, Option, none, some, arith, ℤ, Bytes, ◌==◌, not, ◌<◌, true,
}
use dcschain.BasicHotstuff.State.{Env}
use dcschain.BasicHotstuff.Core.{BcRequest}
use dcschain.Hotstuff2.Types.{H2Msg, empty_h2_msg, new_propose, is_empty}
use dcschain.Hotstuff2.State.{Hotstuff2, get_node_name}
use dcschain.Hotstuff2.Commit.{commit_locked}
use dcschain.Hotstuff2.Handlers.{
  HStep, start_view_change, enter_expired, take_double, proposed, gen_proposal, take_single,
  propose_voted, propose_signed, propose_committed, handle_propose, send_both,
}
use dcschain.Hotstuff2.Aligned.{
  IsAligned, StepAligned, OptionAligned, StateAligned, commit_locked-Aligned,
  handle_new_view-Aligned, handle_wish-Aligned, handle_optimistic_enter-Aligned, handle_tc-Aligned,
  handle_vote1-Aligned, handle_prepare-Aligned, handle_vote2-Aligned,
}
use dcschain.Hotstuff2.Core.{
  route_h2_msg, send_answer, answer, payload_msg, handle_h2_msg, req_proposal, propose_req,
  handle_req,
}
use dcschain.Hotstuff2.Run.{
  Event, deliver, request, timeout, entering, expire_view_timer, expire_enter_timer, step, run,
}

take_double-Aligned :
    (env : Env) (m : H2Msg) (s : Hotstuff2) → IsAligned s → IsAligned (take_double env m s)
unfolding take_double
take_double-Aligned env m s h = ground arith

gen_proposal-Aligned :
    (env : Env) (now : ℤ) (m : H2Msg) (s : Hotstuff2)
    → IsAligned s
    → OptionAligned (gen_proposal env now m s)
unfolding gen_proposal proposed
gen_proposal-Aligned env now m s h =
    let t = take_double env m s in
    let aligned = take_double-Aligned env m s h in
    if_elim OptionAligned (not (s.cur_phase == new_propose)) h (
      if_elim OptionAligned (is_empty t.cur_proposal) aligned
        (committed (commit_locked t.prepare_qc t) (commit_locked-Aligned t.prepare_qc t aligned)))
  where
    committed :
        (o : Option Hotstuff2)
        → StateAligned o
        → OptionAligned (elim o [ none ↦ none | some u ↦ some (proposed env now u) ])
    committed none a = a
    committed (some u) a = a

abbrev TakenAligned : Option Hotstuff2 → Type 0
TakenAligned none = Unit
TakenAligned (some t) = IsAligned t

take_single-Aligned :
    (env : Env) (m : H2Msg) (s : Hotstuff2) → IsAligned s → TakenAligned (take_single env m s)
unfolding take_single
take_single-Aligned env m s h = ground arith

propose_voted-Aligned :
    (env : Env) (m : H2Msg) (s : Hotstuff2) → IsAligned s → StepAligned (propose_voted env m s)
unfolding propose_voted propose_signed
propose_voted-Aligned env m s h = ground arith

propose_committed-Aligned :
    (env : Env) (m : H2Msg) (s : Hotstuff2)
    → IsAligned s
    → OptionAligned (propose_committed env m s)
unfolding propose_committed
propose_committed-Aligned env m s h =
    let voted = propose_voted-Aligned env m s h in
    let done = committed (commit_locked m.justify2 s) (commit_locked-Aligned m.justify2 s h) in
    ground (arith, voted, done)
  where
    committed :
        (o : Option Hotstuff2)
        → StateAligned o
        → OptionAligned (elim o [ none ↦ none | some t ↦ some (propose_voted env m t) ])
    committed none a = a
    committed (some t) a = propose_voted-Aligned env m t a

handle_propose-Aligned :
    (env : Env) (m : H2Msg) (s : Hotstuff2) → IsAligned s → OptionAligned (handle_propose env m s)
unfolding handle_propose
handle_propose-Aligned env m s h =
    let next = taken (take_single env m s) (take_single-Aligned env m s h) in ground (arith, next)
  where
    taken :
        (o : Option Hotstuff2)
        → TakenAligned o
        → OptionAligned (elim o [ none ↦ some (s, none) | some t ↦ propose_committed env m t ])
    taken none a = h
    taken (some t) a = propose_committed-Aligned env m t a

route_h2_msg-Aligned :
    (env : Env) (now : ℤ) (m : H2Msg) (s : Hotstuff2)
    → IsAligned s
    → OptionAligned (route_h2_msg env now m s)
unfolding route_h2_msg
route_h2_msg-Aligned env now m s h =
    let t = m.m_type in
    if_elim OptionAligned (t == 0) (handle_new_view-Aligned env m s h) (
      if_elim OptionAligned (t == 1) (gen_proposal-Aligned env now m s h) (
        if_elim OptionAligned (t == 2) (handle_propose-Aligned env m s h) (
          if_elim OptionAligned (t == 3) (handle_vote1-Aligned env m s h) (
            if_elim OptionAligned (t == 4) (handle_prepare-Aligned env m s h) (
              if_elim OptionAligned (t == 5) (handle_vote2-Aligned env m s h) (
                if_elim OptionAligned (t == 6) (handle_wish-Aligned env m s h) (
                  if_elim OptionAligned (t == 7) (handle_tc-Aligned env m s h) (
                    if_elim OptionAligned (t == 8) (handle_optimistic_enter-Aligned env m s h)
                      h))))))))

answer-Aligned : (r : HStep) → StepAligned r → IsAligned (answer r)
unfolding answer send_answer
answer-Aligned (s, none) h = h
answer-Aligned (s, some r) h = ground arith

handle_h2_msg-Aligned :
    (env : Env) (now : ℤ) (payload : Option H2Msg) (s : Hotstuff2)
    → IsAligned s
    → StateAligned (handle_h2_msg env now payload s)
unfolding handle_h2_msg
handle_h2_msg-Aligned env now payload s h =
    answered (route_h2_msg env now (payload_msg payload) s)
      (route_h2_msg-Aligned env now (payload_msg payload) s h)
  where
    answered :
        (o : Option HStep)
        → OptionAligned o
        → StateAligned (elim o [ none ↦ none | some r ↦ some (answer r) ])
    answered none a = a
    answered (some r) a = answer-Aligned r a

propose_req-Aligned : (r : HStep) → StepAligned r → IsAligned (propose_req r)
unfolding propose_req
propose_req-Aligned (s, none) h = h
propose_req-Aligned (s, some m) h = h

handle_req-Aligned :
    (env : Env) (now height : ℤ) (pre_hash : Bytes) (req : List BcRequest) (s : Hotstuff2)
    → IsAligned s
    → StateAligned (handle_req env now height pre_hash req s)
unfolding handle_req
handle_req-Aligned env now height pre_hash req s h =
    let m = record empty_h2_msg { m_type = new_propose; send_node = get_node_name t } in
    if_elim StateAligned (s.cur_phase == new_propose)
      (generated (gen_proposal env now m t) (gen_proposal-Aligned env now m t h)) h
  where
    t : Hotstuff2
    t = record s { cur_proposal = req_proposal env height pre_hash req }

    generated :
        (o : Option HStep)
        → OptionAligned o
        → StateAligned (elim o [ none ↦ none | some r ↦ some (propose_req r) ])
    generated none a = a
    generated (some r) a = propose_req-Aligned r a

expired-Aligned :
    (env : Env) (s : Hotstuff2)
    → IsAligned s
    → IsAligned (expire_view_timer env s) × IsAligned (expire_enter_timer s)
unfolding expire_view_timer expire_enter_timer start_view_change enter_expired send_both
expired-Aligned env s h = ground arith

step-Aligned : (env : Env) (e : Event) (s : Hotstuff2) → IsAligned s → StateAligned (step env e s)
unfolding step
step-Aligned env (deliver now m) s h = handle_h2_msg-Aligned env now m s h
step-Aligned env (request now height pre_hash req) s h =
    handle_req-Aligned env now height pre_hash req s h
step-Aligned env timeout s h = (expired-Aligned env s h).0
step-Aligned env entering s h = (expired-Aligned env s h).1

run_aligned :
    (env : Env) (es : List Event) (s : Hotstuff2)
    → IsAligned s
    → (t : Hotstuff2) × (run env es s ≡ some t) × IsAligned t
unfolding run
run_aligned env [] s h = (s, refl, h)
run_aligned env (e ∷ es) s h =
    next (λ u a. run_aligned env es u a) (step env e s) (step-Aligned env e s h)
  where
    next :
        ((u : Hotstuff2) → IsAligned u → (t : Hotstuff2) × (run env es u ≡ some t) × IsAligned t)
        → (o : Option Hotstuff2) → StateAligned o
        → (t : Hotstuff2) × ((elim o [ none ↦ none | some u ↦ run env es u ]) ≡ some t)
          × IsAligned t
    next later none a = absurd a
    next later (some u) a = later u a

-- A replica with a locked node for each locked block, at least one node that it counts and a
-- channel to send on, such as one that NewHotstuff2 starts with these, runs any messages,
-- requests and timeouts to their end without a panic or a block, and keeps a locked node for each
-- locked block.
pub run_returns :
    (env : Env) (es : List Event) (s : Hotstuff2)
    → 0 < s.view.nodes_num
    → s.has_send_chan ≡ true
    → IsAligned s
    → (t : Hotstuff2) × (run env es s ≡ some t) × IsAligned t
run_returns env es s nodes chan h = run_aligned env es s h
