-- ===== src/Pbft/Normal.antt =====
-- core/pre_prepare.go, core/prepare.go and core/commit.go: the three phases of the normal case.
use dcschain.Base.{
  ℕ, Bool, true, false, ◌&&◌, not, List, [], ◌∷◌, Option, none, some, ℤ, ltb_ℤ, eq_ℤ, ◌==◌, leb,
  if◌then◌else◌, length, bytes_equal,
}
use dcschain.Common.Timer.{stop}
use dcschain.Quorum.{threshold}
use dcschain.BasicHotstuff.Types.{broadcast}
use dcschain.Pbft.Types.{preprepare, prepare, commit, view_change, empty_head, PMsg}
use dcschain.Pbft.Encode.{short_to_byte}
use dcschain.Pbft.State.{Env, Pbft, is_leader, get_node_name, update_consensus, catch_up}
use dcschain.Pbft.Log.{slot, cur_log, set_log, log_msg, matches, check_msg}
use dcschain.Pbft.Commit.{Step, sign_named, committed_step}

-- The tests of CheckPrePrepareMsg; the message is logged where they pass.
clashes : Option PMsg → PMsg → Bool
clashes none m = false
clashes (some pp) m =
    eq_ℤ pp.head.seq_num m.head.seq_num && not (bytes_equal pp.head.digest m.head.digest)

unfoldable pub pre_prepare_ok : Env → PMsg → Pbft → Bool
unfolding clashes
pre_prepare_ok env m p =
    eq_ℤ m.head.view_number p.view.view_number
    && (not (ltb_ℤ m.head.seq_num p.sequence_num)
        && (not (clashes (cur_log p).preprepare_msg m)
            && env.verify_sign m.head.send_node m.head.signature (short_to_byte m.head)))

unfoldable pub check_pre_prepare_msg : Env → PMsg → Pbft → Pbft × Bool
unfolding pre_prepare_ok log_msg
check_pre_prepare_msg env m p = if pre_prepare_ok env m p then (log_msg m p, true) else (p, false)

-- The messages that match `m`.
unfoldable pub matching : PMsg → List PMsg → List PMsg
matching m [] = []
matching m (c ∷ cs) = let rest = matching m cs in if matches m c then c ∷ rest else rest

-- The prepare and commit messages of a replica.
abbrev pub signed_phase : Env → ℕ → ℤ → PMsg → Pbft → PMsg
signed_phase env kind seq m p = sign_named env (record empty_head {
  m_type = kind;
  view_number = p.view.view_number;
  seq_num = seq;
  send_node = get_node_name p;
  digest = m.head.digest;
  reci_node = broadcast;
})

-- The first branch of CheckPrepareAndCommit, on the commit messages.
check_commits : Env → PMsg → Pbft → Step
unfolding matching committed_step catch_up
check_commits env m p =
    let q = set_log (record (cur_log p) { commit_msgs = matching m (cur_log p).commit_msgs }) p in
    if leb (length (cur_log q).commit_msgs) (threshold q.view.nodes_num)
    then (q, none)
    else committed_step env m (catch_up m.head.view_number q)

-- Its second branch, on the prepare messages.
check_prepares : Env → PMsg → Pbft → Step
unfolding matching catch_up
check_prepares env m p =
    let q = set_log (record (cur_log p) { prepare_msgs = matching m (cur_log p).prepare_msgs }) p in
    if leb (length (cur_log q).prepare_msgs) (threshold q.view.nodes_num)
    then (q, none)
    else (let r = record (catch_up m.head.view_number q) { cur_phase = prepare } in
        (r, some (signed_phase env commit r.sequence_num m r)))

-- CheckPrepareAndCommit; both branches have the same test.
unfoldable pub check_prepare_and_commit : Env → PMsg → Pbft → Step
unfolding check_commits check_prepares
check_prepare_and_commit env m p =
    let some_prepare = not (length (cur_log p).prepare_msgs == 0) in
    if some_prepare
    then check_commits env m p
    else if some_prepare
    then check_prepares env m p
    else (p, none)

pre_prepare_answer : Env → PMsg → Step → Step
pre_prepare_answer env m (p, some r) = (p, some r)
pre_prepare_answer env m (p, none) = (p, some (signed_phase env prepare m.head.seq_num m p))

follow : Env → PMsg → Pbft → Pbft
unfolding update_consensus stop
follow env m p = if is_leader p then p else record (update_consensus env m p) {
  cur_phase = preprepare;
  cur_proposal = m.head.proposal;
  sequence_num = m.head.seq_num;
  p_timer = record (p.p_timer) { timer = stop p.p_timer.timer };
}

pre_prepare_checked : Env → PMsg → Pbft × Bool → Step
unfolding pre_prepare_answer follow check_prepare_and_commit
pre_prepare_checked env m (p, false) = (p, none)
pre_prepare_checked env m (p, true) =
    pre_prepare_answer env m (check_prepare_and_commit env m (follow env m p))

abbrev pub is_some : Option PMsg → Bool
is_some none = false
is_some (some m) = true

unfoldable pub handle_pre_prepare_msg : Env → PMsg → Pbft → Step
unfolding pre_prepare_checked check_pre_prepare_msg
handle_pre_prepare_msg env m p =
    if is_some (p.msg_log (slot m.head.view_number)).preprepare_msg
    then (p, none)
    else pre_prepare_checked env m (check_pre_prepare_msg env m p)

-- prepared, from the answer of CheckMsg on
unfoldable pub prepared_checked : PMsg → Pbft × Bool → Pbft × Bool
unfolding log_msg
prepared_checked m (p, false) = (p, false)
prepared_checked m (p, true) =
    let q = log_msg m p in
    (
      q,
      not (q.cur_phase == prepare)
          && not (leb (length (cur_log q).prepare_msgs) (threshold q.view.nodes_num)),
    )

unfoldable pub prepared : Env → PMsg → Pbft → Pbft × Bool
unfolding prepared_checked check_msg
prepared env m p = prepared_checked m (check_msg env m p)

unfoldable pub prepare_answer : Env → PMsg → Pbft × Bool → Step
unfolding catch_up
prepare_answer env m (p, false) = (p, none)
prepare_answer env m (p, true) =
    let q = catch_up m.head.view_number (record p { cur_phase = prepare }) in
    (q, some (signed_phase env commit q.sequence_num m q))

unfoldable pub handle_prepare_msg : Env → PMsg → Pbft → Step
unfolding prepare_answer prepared
handle_prepare_msg env m p =
    if p.cur_phase == view_change then (p, none) else prepare_answer env m (prepared env m p)

unfoldable pub commited_checked : PMsg → Pbft × Bool → Pbft × Bool
unfolding log_msg
commited_checked m (p, false) = (p, false)
commited_checked m (p, true) =
    let q = log_msg m p in
    (
      q,
      not (q.cur_phase == commit && ltb_ℤ m.head.view_number q.view.view_number)
          && (not (leb (length (cur_log q).prepare_msgs) (threshold q.view.nodes_num))
              && not (leb (length (cur_log q).commit_msgs) (threshold q.view.nodes_num))),
    )

unfoldable pub commited : Env → PMsg → Pbft → Pbft × Bool
unfolding commited_checked check_msg
commited env m p = commited_checked m (check_msg env m p)

unfoldable pub commit_answer : Env → PMsg → Pbft × Bool → Step
unfolding committed_step catch_up
commit_answer env m (p, false) = (p, none)
commit_answer env m (p, true) = committed_step env m (catch_up m.head.view_number p)

unfoldable pub handle_commit_msg : Env → PMsg → Pbft → Step
unfolding commit_answer commited
handle_commit_msg env m p =
    if p.cur_phase == view_change then (p, none) else commit_answer env m (commited env m p)
