-- ===== src/BasicHotstuff/Handlers/Prepare.antt =====
-- core/prepare.go, and the vote handler of core/precommit.go.
use dcschain.Base.{
  Bool, ◌&&◌, ◌||◌, not, [], ◌∷◌, ◌++◌, Option, none, some, pos, ◌==◌, eq_ℤ, leb, if◌then◌else◌,
  length, is_nil, Bytes,
}
use dcschain.Common.Timer.{start, stop}
use dcschain.Crypto.Tss.{threshold_sign}
use dcschain.Blockchain.{hash}
use dcschain.Quorum.{threshold}
use dcschain.BasicHotstuff.Types.{
  new_view, prepare, prepare_vote, pre_commit, Qc, is_empty, Msg, empty_msg, message_to_byte,
  broadcast,
}
use dcschain.BasicHotstuff.State.{Env, BcHotstuff}
use dcschain.BasicHotstuff.Rules.{
  get_leader_name, is_leader, matching_msg, check_new_hs_node, verify_reqs, combine_sign,
}
use dcschain.BasicHotstuff.Handlers.NewView.{Step}

-- A vote before it is signed: what the signature covers is its type, its view and its node.
unfoldable pub vote_on : Msg → BcHotstuff → Msg
vote_on m s = record empty_msg {
  m_type = m.m_type;
  view_number = m.view_number;
  hs_node = m.hs_node;
  reci_node = get_leader_name s;
}

-- HandlePrepare from the signing on; the timer has been stopped.
prepare_voted : Env → Msg → Option Bytes → BcHotstuff → Step
unfolding vote_on start hash
prepare_voted env m none s = (s, none)
prepare_voted env m (some sig) s = (
  record s {
    cur_phase = prepare;
    blk_store = record (s.blk_store) {
      cur_proposal_blk = m.block;
      cur_blk_hash = hash env.sum_sm3 m.block;
    };
    view_timer = start s.view_timer;
  },
  some (record (vote_on m s) { m_type = prepare_vote; partial_sig = sig }),
)

-- The proposal of the first prepare message that arrives is kept.
take_proposal : Msg → BcHotstuff → BcHotstuff
unfolding is_empty
take_proposal m s = if is_empty s.cur_proposal then record s { cur_proposal = m.proposal } else s

-- The tests of HandlePrepare on the message itself.
unfoldable pub prepare_ok : Msg → BcHotstuff → Bool
unfolding verify_reqs
prepare_ok m s =
    eq_ℤ m.view_number s.view.view_number
    && ((eq_ℤ s.view.view_number (pos 0) || check_new_hs_node s m)
        && verify_reqs m.proposal.commands)

unfoldable pub handle_prepare : Env → Msg → BcHotstuff → Step
unfolding prepare_voted take_proposal prepare_ok stop
handle_prepare env m s =
    if not (s.cur_phase == new_view)
    then (s, none)
    else if is_leader s
    then (s, none)
    else let t = take_proposal m s in
      if not (prepare_ok m t)
      then (t, none)
      else prepare_voted env m (threshold_sign env.signer (message_to_byte (vote_on m t)))
          (record t { view_timer = stop t.view_timer })

log_prepare_vote : Msg → BcHotstuff → BcHotstuff
unfolding matching_msg
log_prepare_vote m s =
    if matching_msg m prepare_vote s.view.view_number
    then record s { prepare_votes = s.prepare_votes ++ (m ∷ []) }
    else s

-- HandlePrepareVote from the combined signature on.
prepare_certified : Msg → Bytes → BcHotstuff → Step
prepare_certified m sig s =
    let qc : Qc = record {
      q_type = prepare;
      view_number = m.view_number;
      hs_node = m.hs_node;
      sign = sig;
    } in
    if is_nil sig then (s, none) else (
      record s { prepare_qc = qc; cur_phase = pre_commit },
      some (record empty_msg {
        m_type = pre_commit;
        view_number = s.view.view_number;
        justify = qc;
        reci_node = broadcast;
      }),
    )

unfoldable pub handle_prepare_vote : Env → Msg → BcHotstuff → Step
unfolding log_prepare_vote prepare_certified
handle_prepare_vote env m s =
    if not (s.cur_phase == prepare)
    then (s, none)
    else if not (is_leader s)
    then (s, none)
    else let t = log_prepare_vote m s in
      if leb (length t.prepare_votes) (threshold t.view.nodes_num)
      then (t, none)
      else prepare_certified m (combine_sign env.signer t.prepare_votes t) t
