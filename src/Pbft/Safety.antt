-- ===== src/Pbft/Safety.antt =====
-- What a PBFT replica answers in the normal case.
use dcschain.Base.{
  ◌≡◌, refl, ap, ◌∙◌, ◌≢◌, Bool, inl, inr, true, false, some, [], ◌∷◌, ◌++◌, arith, pos, ◌+ℤ◌, ◌==◌,
  Bool-cases,
}
use dcschain.Common.View.{View}
use dcschain.Common.View
use dcschain.Blockchain.{store_block}
use dcschain.Pbft.Types.{prepare, commit, reply, view_change, PMsg}
use dcschain.Pbft.State.{Env, Pbft, catch_up}
use dcschain.Pbft.Log.{log_msg}
use dcschain.Pbft.Commit.{committed_step, validated, gen_check_point}
use dcschain.Pbft.Normal.{
  prepared, prepare_answer, commit_answer, handle_prepare_msg, commited, handle_commit_msg,
}
use dcschain.Pbft.Checks.{
  log_msg_keeps, IsPrepared, IsCommitted, prepared-IsPrepared, commited-IsCommitted, catch_up_lem,
}

prepare_answer_parts :
    (env : Env) (m : PMsg) (x : Pbft × Bool) {r : PMsg}
    → (prepare_answer env m x).1 ≡ some r
    → (x.1 ≡ true)
      × (r.head.m_type ≡ commit)
      × (r.head.digest ≡ m.head.digest)
      × ((prepare_answer env m x).0.cur_phase ≡ prepare)
unfolding prepare_answer catch_up
prepare_answer_parts env m (p, false) h = cc
prepare_answer_parts env m (p, true) h = ground arith

-- HandlePrepareMsg answers with a commit message only if the replica is in no view change, and the
-- message is prepared: it passes CheckMsg, so it has the view, sequence number and digest of the
-- logged pre-prepare message, more prepare messages than the threshold are logged with it, and the
-- replica is not in the prepare phase yet. The answer has its digest, and the prepare phase begins.
pub handle_prepare_msg_lem :
    (env : Env) (m : PMsg) (p : Pbft) {r : PMsg}
    → (handle_prepare_msg env m p).1 ≡ some r
    → (p.cur_phase ≢ view_change)
      × IsPrepared env m p
      × (r.head.m_type ≡ commit)
      × (r.head.digest ≡ m.head.digest)
      × ((handle_prepare_msg env m p).0.cur_phase ≡ prepare)
unfolding handle_prepare_msg
handle_prepare_msg_lem env m p {r} h = elim (Bool-cases (p.cur_phase == view_change)) [
  | inl changing ↦ absurd (ground arith)
  | inr normal ↦
      let (good, kind, digest, phase) =
        prepare_answer_parts env m (prepared env m p) (rw normal at h) in
      rw normal (ground arith, prepared-IsPrepared env m p good, kind, digest, phase)
]

committed_step_parts :
    (env : Env) (m : PMsg) (p : Pbft) {r : PMsg}
    → (committed_step env m p).1 ≡ some r
    → let t = (committed_step env m p).0 in
      (r.head.m_type ≡ reply)
      × (r.head.view_number ≡ p.view.view_number)
      × (r.head.seq_num ≡ p.sequence_num)
      × (r.head.digest ≡ m.head.digest)
      × (t.view ≡ View.next_view p.view)
      × (t.sequence_num ≡ p.sequence_num +ℤ pos 1)
      × (t.reply_msgs ≡ p.reply_msgs ++ (r ∷ []))
      × (t.blk_store
          ≡ store_block (validated env p).blk_store (validated env p).blk_store.cur_proposal_blk)
unfolding committed_step gen_check_point
committed_step_parts env m p h = ground arith

commit_answer_parts :
    (env : Env) (m : PMsg) (x : Pbft × Bool) {r : PMsg}
    → (commit_answer env m x).1 ≡ some r
    → (x.1 ≡ true)
      × (commit_answer env m x ≡ committed_step env m (catch_up m.head.view_number x.0))
unfolding commit_answer
commit_answer_parts env m (p, false) h = cc
commit_answer_parts env m (p, true) h = (refl, refl)

-- HandleCommitMsg answers only if the replica is in no view change and the message is committed: it
-- passes CheckMsg, so it has the view, sequence number and digest of the logged pre-prepare message,
-- and more prepare messages and more commit messages than the threshold are logged with it. The
-- answer is the reply for that digest in the view of the message; the replica then is in the next
-- view, at the next sequence number, and has logged the reply.
pub handle_commit_msg_lem :
    (env : Env) (m : PMsg) (p : Pbft) {r : PMsg}
    → (handle_commit_msg env m p).1 ≡ some r
    → let t = (handle_commit_msg env m p).0 in
      (p.cur_phase ≢ view_change)
      × IsCommitted env m p
      × (r.head.m_type ≡ reply)
      × (r.head.digest ≡ m.head.digest)
      × (r.head.view_number ≡ m.head.view_number)
      × (r.head.seq_num ≡ p.sequence_num)
      × (t.view.view_number ≡ m.head.view_number +ℤ pos 1)
      × (t.sequence_num ≡ p.sequence_num +ℤ pos 1)
      × (t.reply_msgs ≡ p.reply_msgs ++ (r ∷ []))
unfolding handle_commit_msg View.next_view catch_up
handle_commit_msg_lem env m p {r} h = elim (Bool-cases (p.cur_phase == view_change)) [
  | inl changing ↦ absurd (ground arith)
  | inr normal ↦
      let answered = rw normal at h in
      let (good, result) = commit_answer_parts env m (commited env m p) answered in
      let (committed, log) = commited-IsCommitted env m p good in
      let whole : commit_answer env m (commited env m p)
          ≡ committed_step env m (catch_up m.head.view_number (log_msg m p)) =
        result ∙ ap (λ q. committed_step env m (catch_up m.head.view_number q)) log in
      let (kind, view, seq, digest, next, later, replies, store) =
        committed_step_parts env m (catch_up m.head.view_number (log_msg m p))
          (rw whole at answered) in
      let (same_view, same_seq, same_replies, same_phase) = log_msg_keeps m p in
      let reached : (catch_up m.head.view_number (log_msg m p)).view.view_number
          ≡ m.head.view_number =
        (catch_up_lem m.head.view_number (log_msg m p)).0 (rw same_view committed.0.0) in
      rw (normal, whole)
        (
          ground arith,
          committed,
          kind,
          digest,
          view ∙ reached,
          seq ∙ same_seq,
          ap (λ v. v.view_number) next ∙ ap (λ z. z +ℤ pos 1) reached,
          later ∙ ap (λ z. z +ℤ pos 1) same_seq,
          replies ∙ ap (λ l. l ++ (r ∷ [])) same_replies,
        )
]
