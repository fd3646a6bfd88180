-- ===== src/BasicHotstuff/Handlers/PreCommit.antt =====
-- core/precommit.go (HandlePreCommit) and the vote handler of core/commit.go.
use dcschain.Base.{
  ◌||◌, not, [], ◌∷◌, ◌++◌, Option, none, some, ◌==◌, eq_ℤ, leb, if◌then◌else◌, length, is_nil,
  Bytes,
}
use dcschain.Crypto.Tss.{threshold_sign}
use dcschain.Quorum.{threshold}
use dcschain.BasicHotstuff.Types.{
  new_view, prepare, pre_commit, pre_commit_vote, commit, Qc, Msg, empty_msg, message_to_byte,
  broadcast,
}
use dcschain.BasicHotstuff.State.{Env, BcHotstuff}
use dcschain.BasicHotstuff.Rules.{get_leader_name, is_leader, matching_msg, check_qc, combine_sign}
use dcschain.BasicHotstuff.Handlers.NewView.{Step}

-- The pre-commit vote before it is signed.
unfoldable pub pre_commit_on : Msg → BcHotstuff → Msg
pre_commit_on m s = record empty_msg {
  m_type = m.m_type;
  view_number = m.justify.view_number;
  hs_node = m.justify.hs_node;
  reci_node = get_leader_name s;
}

-- HandlePreCommit from the signing on.
pre_commit_voted : Msg → Option Bytes → BcHotstuff → Step
unfolding pre_commit_on
pre_commit_voted m none s = (s, none)
pre_commit_voted m (some sig) s = (
  record s { cur_phase = pre_commit },
  some (record (pre_commit_on m s) { m_type = pre_commit_vote; partial_sig = sig }),
)

unfoldable pub handle_pre_commit : Env → Msg → BcHotstuff → Step
unfolding pre_commit_voted
handle_pre_commit env m s =
    if not (s.cur_phase == prepare || s.cur_phase == new_view)
    then (s, none)
    else if is_leader s
    then (s, none)
    else if not (eq_ℤ m.view_number s.view.view_number)
    then (s, none)
    else if not (check_qc env.signer m prepare s.view.view_number)
    then (s, none)
    else pre_commit_voted m (threshold_sign env.signer (message_to_byte (pre_commit_on m s)))
        (record s { hs_node = m.justify.hs_node; prepare_qc = m.justify })

unfoldable pub log_pre_commit_vote : Msg → BcHotstuff → BcHotstuff
unfolding matching_msg
log_pre_commit_vote m s =
    if matching_msg m pre_commit_vote s.view.view_number
    then record s { pre_commit_votes = s.pre_commit_votes ++ (m ∷ []) }
    else s

-- HandlePreCommitVote from the combined signature on.
pre_commit_certified : Msg → Bytes → BcHotstuff → Step
pre_commit_certified m sig s =
    let qc : Qc = record {
      q_type = pre_commit;
      view_number = m.view_number;
      hs_node = m.hs_node;
      sign = sig;
    } in
    if is_nil sig then (s, none) else (
      record s { locked_qc = qc; cur_phase = commit },
      some (record empty_msg {
        m_type = commit;
        view_number = s.view.view_number;
        justify = qc;
        reci_node = broadcast;
      }),
    )

unfoldable pub handle_pre_commit_vote : Env → Msg → BcHotstuff → Step
unfolding log_pre_commit_vote pre_commit_certified
handle_pre_commit_vote env m s =
    if not (s.cur_phase == pre_commit)
    then (s, none)
    else if not (is_leader s)
    then (s, none)
    else let t = log_pre_commit_vote m s in
      if leb (length t.pre_commit_votes) (threshold t.view.nodes_num)
      then (t, none)
      else pre_commit_certified m (combine_sign env.signer t.pre_commit_votes t) t
