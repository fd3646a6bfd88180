-- ===== src/Server/Backlog.antt =====
-- What becomes of requests that are not proposed at once.
use mathlib.Core.Path.{subst}
use dcschain.Base.{
  ℕ, ◌<◌, ◌≡◌, refl, sym, ap, ◌∙◌, false, List, [], ◌∷◌, ◌++◌, Option, none, some, ℤ, arith, length,
  length-append, leb, ◌==◌, Bool-cases, inl, inr, if_elim,
}
use mathlib.Core.List.{append-nil, append_assoc}
use dcschain.BasicHotstuff.Core.{BcRequest}
use dcschain.Orderer.State.{Orderer, is_waiting_req}
use dcschain.Orderer.Core.{handle_req}
use dcschain.Server.Outcome.{Outcome, done, blocks, panics, IfDone, IfDone-bind, ◌>>=◌}
use dcschain.Server.State.{Env, Server}
use dcschain.Server.Requests.{or_panic, order_requests, req_round, validate_and_handle_req}

-- A request of a client arrives, or a flag for HandleReq.
pub data ReqEvent : Type 0 where
  arrives : (now : ℤ) → BcRequest → ReqEvent
  flag : (now : ℤ) → ReqEvent

abbrev pub req_step : Env → ReqEvent → Server → Outcome Server
req_step env (arrives now r) s = validate_and_handle_req env now r s
req_step env (flag now) s = req_round env now s

abbrev pub run_reqs : Env → List ReqEvent → Server → Outcome Server
run_reqs env [] s = done s
run_reqs env (e ∷ es) s = req_step env e s >>= λ t. run_reqs env es t

abbrev pub arrived : List ReqEvent → List BcRequest
arrived [] = []
arrived (arrives now r ∷ es) = r ∷ arrived es
arrived (flag now ∷ es) = arrived es

abbrev pub Holds : List BcRequest → ℕ → Server → Type 0
Holds rs n t = (t.requests ≡ rs) × (t.batch_size ≡ n)

order_requests-Holds :
    (env : Env) (now : ℤ) (s : Server)
    → IfDone (Holds s.requests s.batch_size) (order_requests env now s)
unfolding order_requests
order_requests-Holds env now s = go (
    handle_req env.cons now s.blk_store.height s.blk_store.pre_blk_hash s.blk_store.cur_blk_hash
      s.requests s.orderer)
  where
    go :
        (o : Option Orderer)
        → IfDone
            (Holds s.requests s.batch_size)
            (or_panic o >>= λ p. done (record s { orderer = p }))
    go none = tt
    go (some p) = (refl, refl)

validate-Holds :
    (env : Env) (now : ℤ) (r : BcRequest) (s : Server)
    → IfDone (Holds (s.requests ++ (r ∷ [])) s.batch_size) (validate_and_handle_req env now r s)
unfolding validate_and_handle_req
validate-Holds env now r s =
    let t = record s { requests = s.requests ++ (r ∷ []) } in
    if_elim (IfDone (Holds t.requests s.batch_size)) (is_waiting_req s.orderer.cons)
      (order_requests-Holds env now t) (refl, refl)

req_round_over :
    (env : Env) (now : ℤ) (s : Server)
    → s.batch_size < length s.requests
    → req_round env now s ≡ done s
unfolding req_round
req_round_over env now s over =
    let large : leb (length s.requests) s.batch_size ≡ false = ground arith in
    elim (Bool-cases (length s.requests == 0)) [
      | inl e ↦ absurd (ground arith)
      | inr e ↦ rw (e, large) refl
    ]

bind-same :
    {A B : Type 0} {P : A → Type 0} (m : Outcome A) (f g : A → Outcome B)
    → IfDone P m
    → ((a : A) → P a → f a ≡ g a)
    → (m >>= f) ≡ (m >>= g)
bind-same (done a) f g h same = same a h
bind-same blocks f g h same = refl
bind-same panics f g h same = refl

longer_still :
    (s t : Server) (r : BcRequest)
    → s.batch_size < length s.requests
    → Holds (s.requests ++ (r ∷ [])) s.batch_size t
    → t.batch_size < length t.requests
longer_still s t r over h =
    omega (arith, over, length-append s.requests (r ∷ []), ap (λ xs. length xs) h.0, h.1)

-- The events without the flags.
abbrev pub only_requests : List ReqEvent → List ReqEvent
only_requests [] = []
only_requests (arrives now r ∷ es) = arrives now r ∷ only_requests es
only_requests (flag now ∷ es) = only_requests es

flags_idle :
    (env : Env) (es : List ReqEvent) (s : Server)
    → s.batch_size < length s.requests
    → run_reqs env es s ≡ run_reqs env (only_requests es) s
flags_idle env [] s over = refl
flags_idle env (flag now ∷ es) s over =
    rw (req_round_over env now s over) (flags_idle env es s over)
flags_idle env (arrives now r ∷ es) s over =
    bind-same (validate_and_handle_req env now r s) (λ t. run_reqs env es t)
      (λ t. run_reqs env (only_requests es) t) (validate-Holds env now r s)
      (λ t h. flags_idle env es t (longer_still s t r over h))

all_kept :
    (env : Env) (es : List ReqEvent) (s : Server)
    → s.batch_size < length s.requests
    → IfDone (Holds (s.requests ++ arrived es) s.batch_size) (run_reqs env es s)
all_kept env [] s over = (sym (append-nil s.requests), refl)
all_kept env (flag now ∷ es) s over = rw (req_round_over env now s over) (all_kept env es s over)
all_kept env (arrives now r ∷ es) s over =
    IfDone-bind (Holds (s.requests ++ (r ∷ [])) s.batch_size)
      (Holds (s.requests ++ (r ∷ arrived es)) s.batch_size) (validate_and_handle_req env now r s)
      (λ t. run_reqs env es t) (validate-Holds env now r s)
      (λ t h.
        let longer = longer_still s t r over h in
        subst (λ rs. IfDone (Holds rs s.batch_size) (run_reqs env es t))
          (ap (λ xs. xs ++ arrived es) h.0 ∙ append_assoc s.requests (r ∷ []) (arrived es))
          (subst (λ n. IfDone (Holds (t.requests ++ arrived es) n) (run_reqs env es t)) h.1
            (all_kept env es t longer)))

-- Once more requests than the batch size are waiting, a flag does nothing, so it proposes none of
-- them: a run of requests and flags comes to what the same run without the flags comes to, the
-- orderer's state and what it sends included. If no call panics, every request that was there or
-- has come since is still waiting.
pub over_batch_kept :
    (env : Env) (es : List ReqEvent) (s : Server)
    → s.batch_size < length s.requests
    → (run_reqs env es s ≡ run_reqs env (only_requests es) s)
      × IfDone (Holds (s.requests ++ arrived es) s.batch_size) (run_reqs env es s)
over_batch_kept env es s over = (flags_idle env es s over, all_kept env es s over)
