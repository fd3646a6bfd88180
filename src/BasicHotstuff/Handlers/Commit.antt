-- ===== src/BasicHotstuff/Handlers/Commit.antt =====
-- core/commit.go (HandleCommit) and the vote handler of core/decide.go.
use dcschain.Base.{
  not, [], ◌∷◌, ◌++◌, Option, none, some, ◌==◌, eq_ℤ, leb, if◌then◌else◌, length, is_nil, Bytes,
}
use dcschain.Crypto.Tss.{threshold_sign}
use dcschain.Quorum.{threshold}
use dcschain.BasicHotstuff.Types.{
  pre_commit, commit, commit_vote, decide, Qc, Msg, empty_msg, message_to_byte, broadcast,
}
use dcschain.BasicHotstuff.State.{Env, BcHotstuff}
use dcschain.BasicHotstuff.Rules.{get_leader_name, is_leader, matching_msg, check_qc, combine_sign}
use dcschain.BasicHotstuff.Handlers.NewView.{Step}

-- The commit vote before it is signed.
unfoldable pub commit_on : Msg → BcHotstuff → Msg
commit_on m s = record empty_msg {
  m_type = commit;
  view_number = m.view_number;
  hs_node = m.justify.hs_node;
  reci_node = get_leader_name s;
}

-- HandleCommit from the signing on.
commit_voted : Msg → Option Bytes → BcHotstuff → Step
unfolding commit_on
commit_voted m none s = (s, none)
commit_voted m (some sig) s = (
  record s { cur_phase = commit },
  some (record (commit_on m s) { m_type = commit_vote; partial_sig = sig }),
)

unfoldable pub handle_commit : Env → Msg → BcHotstuff → Step
unfolding commit_voted
handle_commit env m s =
    if not (s.cur_phase == pre_commit)
    then (s, none)
    else if is_leader s
    then (s, none)
    else if not (eq_ℤ m.view_number s.view.view_number)
    then (s, none)
    else if not (check_qc env.signer m pre_commit s.view.view_number)
    then (s, none)
    else commit_voted m (threshold_sign env.signer (message_to_byte (commit_on m s)))
        (record s { locked_qc = m.justify })

log_commit_vote : Msg → BcHotstuff → BcHotstuff
unfolding matching_msg
log_commit_vote m s =
    if matching_msg m commit_vote s.view.view_number
    then record s { commit_votes = s.commit_votes ++ (m ∷ []) }
    else s

-- HandleCommitVote from the combined signature on; the state stays as it is.
commit_certified : Msg → Bytes → BcHotstuff → Step
commit_certified m sig s =
    let qc : Qc = record {
      q_type = commit;
      view_number = m.view_number;
      hs_node = m.hs_node;
      sign = sig;
    } in
    if is_nil sig then (s, none) else (
      s,
      some (record empty_msg {
        m_type = decide;
        view_number = s.view.view_number;
        justify = qc;
        reci_node = broadcast;
      }),
    )

unfoldable pub handle_commit_vote : Env → Msg → BcHotstuff → Step
unfolding log_commit_vote commit_certified
handle_commit_vote env m s =
    if not (s.cur_phase == commit)
    then (s, none)
    else if not (is_leader s)
    then (s, none)
    else let t = log_commit_vote m s in
      if leb (length t.commit_votes) (threshold t.view.nodes_num)
      then (t, none)
      else commit_certified m (combine_sign env.signer t.commit_votes t) t
