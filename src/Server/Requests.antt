-- ===== src/Server/Requests.antt =====
-- core/server/server.go (ValidateAndHandleReq, VerifyReqs) and handler.go (HandleReq): requests.
use dcschain.Base.{
  Bool, not, ◌&&◌, [], ◌∷◌, ◌++◌, Option, none, some, ℤ, text_eq, if◌then◌else◌, leb, ◌==◌, length,
}
use dcschain.BasicHotstuff.Core.{BcRequest}
use dcschain.Orderer.State.{get_leader_name, is_waiting_req}
use dcschain.Orderer.Core.{handle_req}
use dcschain.Server.Outcome.{Outcome, done, panics, ◌>>=◌}
use dcschain.Server.State.{Env, Server}

abbrev pub or_panic {ℓ} : {A : Type ℓ} → Option A → Outcome A
or_panic none = panics
or_panic (some a) = done a

-- Orderer.HandleReq on the requests of the server and the hashes of its own block store.
unfoldable pub order_requests : Env → ℤ → Server → Outcome Server
unfolding handle_req
order_requests env now s = do
  let b = s.blk_store
  o ← or_panic (handle_req env.cons now b.height b.pre_blk_hash b.cur_blk_hash s.requests s.orderer)
  done (record s { orderer = o })

-- VerifyReqs
unfoldable pub verify_reqs : Server → Bool
verify_reqs s = not (length s.requests == 0)

-- A round of HandleReq, once it has taken a flag from ReqFlagChan. The loop tests ReqState before
-- it waits for the flag, so the round itself does not.
unfoldable pub req_round : Env → ℤ → Server → Outcome Server
unfolding order_requests verify_reqs get_leader_name text_eq
req_round env now s =
    if not (length s.requests == 0)
      && (leb (length s.requests) s.batch_size && text_eq s.name (get_leader_name s.orderer.cons))
    then (if verify_reqs s
        then (do t ← order_requests env now s; done (record t { requests = [] }))
        else done (record s { requests = [] }))
    else done s

-- ValidateAndHandleReq; `r` is what json makes of the payload
unfoldable pub validate_and_handle_req : Env → ℤ → BcRequest → Server → Outcome Server
unfolding order_requests is_waiting_req
validate_and_handle_req env now r s =
    let t = record s { requests = s.requests ++ (r ∷ []) } in
    if is_waiting_req t.orderer.cons then order_requests env now t else done t
