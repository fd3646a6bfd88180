-- ===== src/Pbft/Early.antt =====
-- Prepare messages that arrive before the pre-prepare message.
use dcschain.Base.{
  ℕ, ◌≡◌, refl, ◌≢◌, true, false, none, arith, pos, ◌+ℤ◌, ◌≤ℤ◌, Bool-cases, inl, inr, ◌==◌, ◌++◌,
  [], ◌∷◌,
}
use dcschain.Pbft.Types.{prepare, view_change, checkpoint_num, PMsg}
use dcschain.Pbft.Encode.{named_to_byte}
use dcschain.Pbft.State.{Env, Pbft, catch_up}
use dcschain.Pbft.Log.{slot, log_msg, check_msg, match_pre_prepare_msg}
use dcschain.Pbft.Commit.{committed_step, gen_check_point}
use dcschain.Pbft.Normal.{
  prepared, handle_prepare_msg, check_prepare_and_commit, prepared_checked, prepare_answer,
}

early_check :
    (env : Env) (m : PMsg) (p : Pbft)
    → m.head.m_type ≡ prepare
    → (p.msg_log (slot m.head.view_number)).preprepare_msg ≡ none
    → p.view.view_number ≤ℤ m.head.view_number
    → m.head.seq_num ≤ℤ p.check_point.seq +ℤ pos checkpoint_num
    → env.verify_sign m.head.send_node m.head.signature (named_to_byte m.head) ≡ true
    → check_msg env m p ≡ (log_msg m p, false)
unfolding check_msg match_pre_prepare_msg
early_check env m p kind free ahead low signed = ground arith

prepare_logged :
    (m : PMsg) (p : Pbft)
    → m.head.m_type ≡ prepare
    → ((log_msg m p).msg_log (slot p.view.view_number)).prepare_msgs
      ≡ (p.msg_log (slot p.view.view_number)).prepare_msgs ++ (m ∷ [])
unfolding log_msg
prepare_logged m p kind = rw (log_msg, kind) (ground arith)

keeps_prepares :
    (env : Env) (m : PMsg) (p : Pbft) (k : ℕ)
    → ((check_prepare_and_commit env m p).0.msg_log k).prepare_msgs ≡ (p.msg_log k).prepare_msgs
unfolding check_prepare_and_commit committed_step gen_check_point catch_up
keeps_prepares env m p k = ground arith

-- A signed prepare message within the marks that arrives before the pre-prepare message of its
-- slot is put behind the prepare messages of the current view's slot whatever its digest, and
-- what CheckPrepareAndCommit later does for a pre-prepare message takes no prepare message out of
-- the log.
pub early_prepare_kept :
    (env : Env) (m pp : PMsg) (p : Pbft)
    → p.cur_phase ≢ view_change
    → m.head.m_type ≡ prepare
    → (p.msg_log (slot m.head.view_number)).preprepare_msg ≡ none
    → p.view.view_number ≤ℤ m.head.view_number
    → m.head.seq_num ≤ℤ p.check_point.seq +ℤ pos checkpoint_num
    → env.verify_sign m.head.send_node m.head.signature (named_to_byte m.head) ≡ true
    → (handle_prepare_msg env m p ≡ (log_msg m p, none))
      × (((log_msg m p).msg_log (slot p.view.view_number)).prepare_msgs
          ≡ (p.msg_log (slot p.view.view_number)).prepare_msgs ++ (m ∷ []))
      × ((k : ℕ)
          → ((check_prepare_and_commit env pp (log_msg m p)).0.msg_log k).prepare_msgs
            ≡ ((log_msg m p).msg_log k).prepare_msgs)
unfolding handle_prepare_msg prepared prepared_checked prepare_answer
early_prepare_kept env m pp p normal kind free ahead low signed =
    let logged = early_check env m p kind free ahead low signed in
    elim (Bool-cases (p.cur_phase == view_change)) [
      | inl changing ↦ absurd (ground arith)
      | inr other ↦
          rw (other, logged) (refl, prepare_logged m p kind, keeps_prepares env pp (log_msg m p))
    ]
